-- ===== src/Common/Members.antt =====
-- Membership in lists: what passes through filters, sorting and maps.
use Prim.Native.Nat.{ℕ, zero, suc, ◌≤◌, ◌<◌}
use mathlib.Core.Path.{◌≡◌, refl, ap, subst, sym, ◌∙◌}
use mathlib.Core.Logic.{inl, inr}
use mathlib.Core.Bool.{Bool, true, false}
use mathlib.Core.Option.{some}
use mathlib.Core.List.{List, [], ◌∷◌, map, Memᴰ}
use native.Mathlib.Omega.{arith}
use settle_flow.Common.Tests.{Bool-cases}
use settle_flow.Common.Lists.{find?, filter, any, All, sort_by, insert_by, take, count_if, length}

module _ {ℓ} {A : Type ℓ} where
  pub All-intro {κ} : (P : A → Type κ) (xs : List A) → ((x : A) → Memᴰ x xs → P x) → All P xs
  All-intro P [] f = tt
  All-intro P (x ∷ xs) f = (f x (Memᴰ.head refl), All-intro P xs (λ y m. f y (Memᴰ.tail m)))

  pub All-member {κ} : (P : A → Type κ) (xs : List A) (x : A) → Memᴰ x xs → All P xs → P x
  All-member P [] x m h = elim m [ ]
  All-member P (y ∷ xs) x (Memᴰ.head e) h = subst P (sym e) h.0
  All-member P (y ∷ xs) x (Memᴰ.tail m) h = All-member P xs x m h.1

  pub any_witness :
      (p : A → Bool) (xs : List A) → any p xs ≡ true → (x : A) × Memᴰ x xs × (p x ≡ true)
  any_witness p [] h = cc
  any_witness p (x ∷ xs) h = elim (Bool-cases (p x)) [
    | inl hit ↦ (x, Memᴰ.head refl, hit)
    | inr miss ↦ let (y, m, hit) = any_witness p xs (ground arith) in (y, Memᴰ.tail m, hit)
  ]

  pub any_of_member :
      (p : A → Bool) (xs : List A) (x : A) → Memᴰ x xs → p x ≡ true → any p xs ≡ true
  any_of_member p [] x m h = elim m [ ]
  any_of_member p (y ∷ xs) x (Memᴰ.head e) h =
      let hit : p y ≡ true = subst (λ z. p z ≡ true) e h in ground arith
  any_of_member p (y ∷ xs) x (Memᴰ.tail m) h = ground (arith, any_of_member p xs x m h)

  pub none_of_members :
      (p : A → Bool) (xs : List A) → ((x : A) → Memᴰ x xs → p x ≡ false) → any p xs ≡ false
  none_of_members p [] h = refl
  none_of_members p (x ∷ xs) h =
      ground (arith, h x (Memᴰ.head refl), none_of_members p xs (λ y m. h y (Memᴰ.tail m)))

  pub member-filter :
      (p : A → Bool) (xs : List A) (x : A) → Memᴰ x (filter p xs) → Memᴰ x xs × (p x ≡ true)
  member-filter p [] x m = elim m [ ]
  member-filter p (y ∷ xs) x m = elim (Bool-cases (p y)) [
    | inl hit ↦
        let n : Memᴰ x (y ∷ filter p xs) = subst (λ ys. Memᴰ x ys) (ground arith) m in
        elim n [
          | Memᴰ.head e ↦ (Memᴰ.head e, subst (λ z. p z ≡ true) (sym e) hit)
          | Memᴰ.tail k ↦ let (k', passes) = member-filter p xs x k in (Memᴰ.tail k', passes)
        ]
    | inr miss ↦
        let (n, passes) = member-filter p xs x (subst (λ ys. Memᴰ x ys) (ground arith) m) in
        (Memᴰ.tail n, passes)
  ]

  pub filter-member :
      (p : A → Bool) (xs : List A) (x : A) → Memᴰ x xs → p x ≡ true → Memᴰ x (filter p xs)
  filter-member p [] x m h = elim m [ ]
  filter-member p (y ∷ xs) x (Memᴰ.head e) h =
      let hit : p y ≡ true = subst (λ z. p z ≡ true) e h in
      subst (λ ys. Memᴰ x ys) (ground arith) (Memᴰ.head {xs = filter p xs} e)
  filter-member p (y ∷ xs) x (Memᴰ.tail m) h = elim (Bool-cases (p y)) [
    | inl hit ↦
        let n : Memᴰ x (y ∷ filter p xs) = Memᴰ.tail (filter-member p xs x m h) in
        subst (λ ys. Memᴰ x ys) (ground arith) n
    | inr miss ↦ subst (λ ys. Memᴰ x ys) (ground arith) (filter-member p xs x m h)
  ]

  behind : (x y z : A) (ys : List A) → Memᴰ x (y ∷ ys) → Memᴰ x (y ∷ z ∷ ys)
  behind x y z ys (Memᴰ.head e) = Memᴰ.head e
  behind x y z ys (Memᴰ.tail m) = Memᴰ.tail (Memᴰ.tail m)

  pub member-insert :
      (before : A → A → Bool) (x y : A) (ys : List A)
      → Memᴰ x (insert_by before y ys)
      → Memᴰ x (y ∷ ys)
  unfolding insert_by
  member-insert before x y [] m = m
  member-insert before x y (z ∷ ys) m = elim (Bool-cases (before y z)) [
    | inl first ↦ subst (λ l. Memᴰ x l) (ground arith) m
    | inr later ↦
        let n : Memᴰ x (z ∷ insert_by before y ys) = subst (λ l. Memᴰ x l) (ground arith) m in
        elim n [
          | Memᴰ.head e ↦ Memᴰ.tail (Memᴰ.head e)
          | Memᴰ.tail k ↦ behind x y z ys (member-insert before x y ys k)
        ]
  ]

  pub member-sort :
      (before : A → A → Bool) (x : A) (xs : List A) → Memᴰ x (sort_by before xs) → Memᴰ x xs
  unfolding sort_by
  member-sort before x [] m = m
  member-sort before x (y ∷ xs) m = elim (member-insert before x y (sort_by before xs) m) [
    | Memᴰ.head e ↦ Memᴰ.head e
    | Memᴰ.tail n ↦ Memᴰ.tail (member-sort before x xs n)
  ]

  pub member-take : (n : ℕ) (x : A) (xs : List A) → Memᴰ x (take n xs) → Memᴰ x xs
  member-take zero x xs m = elim m [ ]
  member-take (suc n) x [] m = m
  member-take (suc n) x (y ∷ xs) (Memᴰ.head e) = Memᴰ.head e
  member-take (suc n) x (y ∷ xs) (Memᴰ.tail m) = Memᴰ.tail (member-take n x xs m)

  length-insert :
      (before : A → A → Bool) (x : A) (xs : List A)
      → length (insert_by before x xs) ≡ suc (length xs)
  unfolding insert_by
  length-insert before x [] = refl
  length-insert before x (y ∷ xs) = ground (arith, length-insert before x xs)

  pub length-sort : (before : A → A → Bool) (xs : List A) → length (sort_by before xs) ≡ length xs
  unfolding sort_by
  length-sort before [] = refl
  length-sort before (x ∷ xs) =
      length-insert before x (sort_by before xs) ∙ ap suc (length-sort before xs)

  pub length-take : (n : ℕ) (xs : List A) → n ≤ length xs → length (take n xs) ≡ n
  length-take zero xs h = refl
  length-take (suc n) [] h = absurd (omega arith)
  length-take (suc n) (x ∷ xs) h = ap suc (length-take n xs (omega arith))

pub member-map {ℓ κ} :
    {A : Type ℓ} {B : Type κ} (f : A → B) (xs : List A) (y : B)
    → Memᴰ y (map f xs)
    → (x : A) × Memᴰ x xs × (y ≡ f x)
member-map f [] y m = elim m [ ]
member-map f (x ∷ xs) y (Memᴰ.head e) = (x, Memᴰ.head refl, e)
member-map f (x ∷ xs) y (Memᴰ.tail m) = let (z, n, e) = member-map f xs y m in (z, Memᴰ.tail n, e)

pub map-member {ℓ κ} :
    {A : Type ℓ} {B : Type κ} (f : A → B) (xs : List A) (x : A) → Memᴰ x xs → Memᴰ (f x) (map f xs)
map-member f [] x m = elim m [ ]
map-member f (y ∷ xs) x (Memᴰ.head e) = Memᴰ.head (ap f e)
map-member f (y ∷ xs) x (Memᴰ.tail m) = Memᴰ.tail (map-member f xs x m)

module _ {ℓ} {A : Type ℓ} where
  pub take_pos : (n : ℕ) (xs : List A) → 0 < n → 0 < length xs → (x : A) × Memᴰ x (take n xs)
  take_pos zero xs h k = absurd (omega arith)
  take_pos (suc n) [] h k = absurd (omega arith)
  take_pos (suc n) (x ∷ xs) h k = (x, Memᴰ.head refl)

  pub length_pos : (xs : List A) (x : A) → Memᴰ x xs → 0 < length xs
  length_pos [] x m = elim m [ ]
  length_pos (y ∷ xs) x m = omega arith

  pub count_if_witness :
      (p : A → Bool) (xs : List A) → 0 < count_if p xs → (x : A) × Memᴰ x xs × (p x ≡ true)
  count_if_witness p [] h = absurd (omega arith)
  count_if_witness p (x ∷ xs) h = elim (Bool-cases (p x)) [
    | inl hit ↦ (x, Memᴰ.head refl, hit)
    | inr miss ↦ let (y, m, hit) = count_if_witness p xs (ground arith) in (y, Memᴰ.tail m, hit)
  ]

  -- A step that makes no further element pass a test lets at most as many pass; and fewer, where it
  -- makes one fail.
  pub count_if-map-le :
      (p : A → Bool) (f : A → A) (xs : List A)
      → ((x : A) → Memᴰ x xs → p x ≡ false → p (f x) ≡ false)
      → count_if p (map f xs) ≤ count_if p xs
  count_if-map-le p f [] keep = omega arith
  count_if-map-le p f (x ∷ xs) keep =
      ground (arith, keep x (Memᴰ.head refl), count_if-map-le p f xs (λ y m. keep y (Memᴰ.tail m)))

  pub count_if-map-lt :
      (p : A → Bool) (f : A → A) (xs : List A) (x : A)
      → ((x : A) → Memᴰ x xs → p x ≡ false → p (f x) ≡ false)
      → Memᴰ x xs
      → p x ≡ true
      → p (f x) ≡ false
      → count_if p (map f xs) < count_if p xs
  count_if-map-lt p f [] x keep m h k = elim m [ ]
  count_if-map-lt p f (y ∷ xs) x keep (Memᴰ.head e) h k =
      let before : p y ≡ true = subst (λ z. p z ≡ true) e h in
      let after : p (f y) ≡ false = subst (λ z. p (f z) ≡ false) e k in
      ground (arith, count_if-map-le p f xs (λ z n. keep z (Memᴰ.tail n)))
  count_if-map-lt p f (y ∷ xs) x keep (Memᴰ.tail m) h k =
      ground (
        arith,
        keep y (Memᴰ.head refl),
        count_if-map-lt p f xs x (λ z n. keep z (Memᴰ.tail n)) m h k,
      )

pub find?-member {ℓ} :
    {A : Type ℓ} (p : A → Bool) (xs : List A) (x : A)
    → find? p xs ≡ some x
    → Memᴰ x xs × (p x ≡ true)
find?-member p [] x h = cc
find?-member p (y ∷ xs) x h = elim (Bool-cases (p y)) [
  | inl hit ↦
      let same : x ≡ y = ground arith in (Memᴰ.head same, subst (λ z. p z ≡ true) (sym same) hit)
  | inr miss ↦ let (m, hit) = find?-member p xs x (ground arith) in (Memᴰ.tail m, hit)
]

pub any-false {ℓ} :
    {A : Type ℓ} (p : A → Bool) (xs : List A) (x : A) → Memᴰ x xs → any p xs ≡ false → p x ≡ false
any-false p xs x m h = elim (Bool-cases (p x)) [
  | inl hit ↦ cc (any_of_member p xs x m hit)
  | inr miss ↦ miss
]
