-- ===== src/Common/Lists.antt =====
-- Lists measured by native numbers, under the library's names, with Boolean tests.
use Prim.Native.Nat.{ℕ, zero, suc, ◌+◌, ◌≤◌}
use mathlib.Core.Path.{◌≡◌, refl, ap, subst}
use mathlib.Core.Logic.{inl, inr}
use mathlib.Core.Bool.{Bool, true, false, ◌&&◌, ◌||◌, not}
use mathlib.Core.List.{List, [], ◌∷◌, ◌++◌, map}
use mathlib.Core.Option.{Option, none, some}
use native.Mathlib.Omega.{arith}
use settle_flow.Common.Tests.{if◌then◌else◌, Bool-cases}

module _ {ℓ} {A : Type ℓ} where
  abbrev pub length : List A → ℕ
  length [] = 0
  length (x ∷ xs) = suc (length xs)

  -- `Array.prototype.filter`
  abbrev pub filter : (A → Bool) → List A → List A
  filter p [] = []
  filter p (x ∷ xs) = if p x then x ∷ filter p xs else filter p xs

  -- `Array.prototype.find`
  abbrev pub find? : (A → Bool) → List A → Option A
  find? p [] = none
  find? p (x ∷ xs) = if p x then some x else find? p xs

  -- `Array.prototype.some`
  abbrev pub any : (A → Bool) → List A → Bool
  any p [] = false
  any p (x ∷ xs) = p x || any p xs

  -- `Array.prototype.every`
  abbrev pub all : (A → Bool) → List A → Bool
  all p [] = true
  all p (x ∷ xs) = p x && all p xs

  -- The number of elements that pass a test.
  abbrev pub count_if : (A → Bool) → List A → ℕ
  count_if p [] = 0
  count_if p (x ∷ xs) = if p x then suc (count_if p xs) else count_if p xs

  abbrev pub All {κ} : (A → Type κ) → List A → Type κ
  All P [] = Unit
  All P (x ∷ xs) = P x × All P xs

  pub length-append : (xs ys : List A) → length (xs ++ ys) ≡ length xs + length ys
  length-append [] ys = omega arith
  length-append (x ∷ xs) ys = omega (arith, length-append xs ys)

  pub length-filter : (p : A → Bool) (xs : List A) → length (filter p xs) ≡ count_if p xs
  length-filter p [] = refl
  length-filter p (x ∷ xs) = ground (arith, length-filter p xs)

  pub count_if-le-length : (p : A → Bool) (xs : List A) → count_if p xs ≤ length xs
  count_if-le-length p [] = omega arith
  count_if-le-length p (x ∷ xs) = ground (arith, count_if-le-length p xs)

  pub find?-pass : (p : A → Bool) (xs : List A) (x : A) → find? p xs ≡ some x → p x ≡ true
  find?-pass p [] x h = cc
  find?-pass p (y ∷ xs) x h = ground (arith, find?-pass p xs x)

  pub All-append {κ} : (P : A → Type κ) (xs ys : List A) → All P xs → All P ys → All P (xs ++ ys)
  All-append P [] ys h k = k
  All-append P (x ∷ xs) ys h k = (h.0, All-append P xs ys h.1 k)

  pub find?-All {κ} :
      (P : A → Type κ) (p : A → Bool) (xs : List A) (x : A) → All P xs → find? p xs ≡ some x → P x
  find?-All P p [] x h e = cc
  find?-All P p (y ∷ xs) x h e = elim (Bool-cases (p y)) [
    | inl hit ↦ subst P (ground arith) h.0
    | inr miss ↦ find?-All P p xs x h.1 (ground arith)
  ]

  pub count_if-append :
      (p : A → Bool) (xs ys : List A) → count_if p (xs ++ ys) ≡ count_if p xs + count_if p ys
  count_if-append p [] ys = omega arith
  count_if-append p (x ∷ xs) ys = ground (arith, count_if-append p xs ys)

pub length-map {ℓ κ} :
    {A : Type ℓ} {B : Type κ} (f : A → B) (xs : List A) → length (map f xs) ≡ length xs
length-map f [] = refl
length-map f (x ∷ xs) = ap suc (length-map f xs)

module _ {ℓ} {A : Type ℓ} where
  pub any-filter : (p q : A → Bool) (xs : List A) → any p (filter q xs) ≡ any (λ x. q x && p x) xs
  any-filter p q [] = refl
  any-filter p q (x ∷ xs) = ground (arith, any-filter p q xs)

  -- What no element fails, and what follows from it, hold of all.
  pub all_of_not-any :
      (p q r : A → Bool) (xs : List A)
      → ((x : A) → q x ≡ true → r x ≡ true)
      → all p xs ≡ true
      → any (λ x. not (q x)) xs ≡ false
      → all (λ x. p x && r x) xs ≡ true
  all_of_not-any p q r [] f h k = refl
  all_of_not-any p q r (x ∷ xs) f h k = ground (arith, f x, all_of_not-any p q r xs f)

  pub find?-append :
      (p : A → Bool) (xs ys : List A) (x : A) → find? p xs ≡ some x → find? p (xs ++ ys) ≡ some x
  find?-append p [] ys x h = cc
  find?-append p (y ∷ xs) ys x h = ground (arith, find?-append p xs ys x)

  pub find?-none_of_any : (p : A → Bool) (xs : List A) → any p xs ≡ false → find? p xs ≡ none
  find?-none_of_any p [] h = refl
  find?-none_of_any p (x ∷ xs) h = ground (arith, find?-none_of_any p xs)

  pub All-map {κ ι} :
      (P : A → Type κ) (Q : A → Type ι) (xs : List A) → ((x : A) → P x → Q x) → All P xs → All Q xs
  All-map P Q [] f h = tt
  All-map P Q (x ∷ xs) f h = (f x h.0, All-map P Q xs f h.1)

module _ {ℓ} {A : Type ℓ} (f : A → A → Bool) where
  all-any-weaken :
      (o : A) (os es : List A)
      → all (λ e. any (f e) os) es ≡ true
      → all (λ e. any (f e) (o ∷ os)) es ≡ true
  all-any-weaken o os [] h = refl
  all-any-weaken o os (e ∷ es) h = ground (arith, all-any-weaken o os es)

  -- Each image finds the element that it comes from.
  pub all-any-map :
      (g : A → A) (xs : List A)
      → ((x : A) → f (g x) x ≡ true)
      → all (λ e. any (f e) xs) (map g xs) ≡ true
  all-any-map g [] h = refl
  all-any-map g (x ∷ xs) h = ground (arith, h x, all-any-weaken x xs (map g xs), all-any-map g xs h)

pub all_left {ℓ} :
    {A : Type ℓ} (p q : A → Bool) (xs : List A) → all (λ x. p x && q x) xs ≡ true → all p xs ≡ true
all_left p q [] h = refl
all_left p q (x ∷ xs) h = ground (arith, all_left p q xs)

pub find?-map {ℓ} :
    {A : Type ℓ} (p : A → Bool) (f : A → A) (xs : List A) (x : A)
    → ((y : A) → p (f y) ≡ p y)
    → find? p xs ≡ some x
    → find? p (map f xs) ≡ some (f x)
find?-map p f [] x k h = cc
find?-map p f (y ∷ xs) x k h = ground (arith, k y, find?-map p f xs x k)

module _ {ℓ} {A : Type ℓ} (p : A → Bool) where
  pub none_of_count : (xs : List A) → count_if p xs ≡ 0 → All (λ x. p x ≡ false) xs
  none_of_count [] h = tt
  none_of_count (x ∷ xs) h = elim (Bool-cases (p x)) [
    | inl hit ↦ absurd (ground arith)
    | inr miss ↦ (miss, none_of_count xs (ground arith))
  ]

  -- Where one element passes, every element that passes is one that a search finds.
  pub only_pass :
      (q : A → Bool) (xs : List A) (a : A)
      → count_if p xs ≡ 1
      → p a ≡ true
      → find? q xs ≡ some a
      → All (λ x. p x ≡ true → x ≡ a) xs
  only_pass q [] a one passes found = tt
  only_pass q (x ∷ xs) a one passes found = elim (Bool-cases (q x)) [
    | inl here ↦ (
      λ h. ground (arith),
      All-map (λ y. p y ≡ false) _ xs (λ y miss hit. absurd (ground arith))
          (none_of_count xs (ground arith)),
    )
    | inr there ↦ elim (Bool-cases (p x)) [
      | inl hit ↦ absurd (
          let missed : p a ≡ false =
            find?-All (λ y. p y ≡ false) q xs a (none_of_count xs (ground arith)) (ground arith) in
          ground arith)
      | inr miss ↦
          (λ hit. absurd (ground arith), only_pass q xs a (ground arith) passes (ground arith))
    ]
  ]

pub All-image {ℓ κ} :
    {A : Type ℓ} {B : Type ℓ} (P : B → Type κ) (f : A → B) (xs : List A)
    → All (λ x. P (f x)) xs
    → All P (map f xs)
All-image P f [] h = tt
All-image P f (x ∷ xs) h = (h.0, All-image P f xs h.1)

pub All-both {ℓ κ ι} :
    {A : Type ℓ} (P : A → Type κ) (Q : A → Type ι) (xs : List A)
    → All P xs
    → All Q xs
    → All (λ x. P x × Q x) xs
All-both P Q [] h k = tt
All-both P Q (x ∷ xs) h k = ((h.0, k.0), All-both P Q xs h.1 k.1)

module _ {ℓ} {A : Type ℓ} where
  -- `LIMIT`
  abbrev pub take : ℕ → List A → List A
  take zero xs = []
  take (suc n) [] = []
  take (suc n) (x ∷ xs) = x ∷ take n xs

  unfoldable pub insert_by : (A → A → Bool) → A → List A → List A
  insert_by before x [] = x ∷ []
  insert_by before x (y ∷ ys) = if before x y then x ∷ y ∷ ys else y ∷ insert_by before x ys

  -- `ORDER BY`
  unfoldable pub sort_by : (A → A → Bool) → List A → List A
  unfolding insert_by
  sort_by before [] = []
  sort_by before (x ∷ xs) = insert_by before x (sort_by before xs)
