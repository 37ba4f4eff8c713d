-- ===== src/Common/Distinct.antt =====
-- Lists in which no two elements have the same key, which is a text.
use settle_flow.Common.Members.{
  none_of_members, member-take, member-sort, member-insert, member-filter, any_of_member,
}
use settle_flow.Common.Text.{text_eq_refl, text_eq_comm, text_eq, Text}
use settle_flow.Common.{
  Bool-cases, ◌≡◌, ◌∷◌, ◌∙◌, ℕ, zero, true, take, sym, suc, subst, sort_by, refl, map, insert_by,
  inr, inl, filter, false, arith, ap, any, [], List, Bool,
}
use mathlib.Core.List.{Memᴰ}

abbrev pub DistinctBy {ℓ} : {A : Type ℓ} → (A → Text) → List A → Type 0
DistinctBy key [] = Unit
DistinctBy key (x ∷ xs) = (any (λ y. text_eq (key y) (key x)) xs ≡ false) × DistinctBy key xs

module _ {ℓ} {A : Type ℓ} (key : A → Text) where
  unlike_members :
      (x y : A) (xs : List A)
      → any (λ z. text_eq (key z) (key x)) xs ≡ false
      → Memᴰ y xs
      → text_eq (key y) (key x) ≡ false
  unlike_members x y xs h m = elim (Bool-cases (text_eq (key y) (key x))) [
    | inr different ↦ different
    | inl same ↦ cc (any_of_member (λ z. text_eq (key z) (key x)) xs y m same)
  ]

  -- Members with the same key are the same.
  pub same_of_key :
      (xs : List A) (x y : A) → DistinctBy key xs → Memᴰ x xs → Memᴰ y xs → key x ≡ key y → x ≡ y
  same_of_key [] x y d m n e = elim m [ ]
  same_of_key (z ∷ xs) x y d (Memᴰ.head p) (Memᴰ.head q) e = p ∙ sym q
  same_of_key (z ∷ xs) x y d (Memᴰ.head p) (Memᴰ.tail n) e = absurd (
      let same : text_eq (key y) (key z) ≡ true =
        subst (λ k. text_eq (key y) k ≡ true) (sym e ∙ ap key p) (text_eq_refl (key y)) in
      cc (unlike_members z y xs d.0 n))
  same_of_key (z ∷ xs) x y d (Memᴰ.tail m) (Memᴰ.head q) e = absurd (
      let same : text_eq (key x) (key z) ≡ true =
        subst (λ k. text_eq (key x) k ≡ true) (e ∙ ap key q) (text_eq_refl (key x)) in
      cc (unlike_members z x xs d.0 m))
  same_of_key (z ∷ xs) x y d (Memᴰ.tail m) (Memᴰ.tail n) e = same_of_key xs x y d.1 m n e

  any-map_key :
      (f : A → A) (k : Text) (xs : List A)
      → ((x : A) → key (f x) ≡ key x)
      → any (λ z. text_eq (key z) k) (map f xs) ≡ any (λ z. text_eq (key z) k) xs
  any-map_key f k [] same = refl
  any-map_key f k (x ∷ xs) same = rw (same x, any-map_key f k xs same)

  pub DistinctBy-map :
      (f : A → A) (xs : List A)
      → ((x : A) → key (f x) ≡ key x)
      → DistinctBy key xs
      → DistinctBy key (map f xs)
  DistinctBy-map f [] same d = tt
  DistinctBy-map f (x ∷ xs) same d =
      (rw (same x) (any-map_key f (key x) xs same ∙ d.0), DistinctBy-map f xs same d.1)

  pub DistinctBy-filter :
      (p : A → Bool) (xs : List A) → DistinctBy key xs → DistinctBy key (filter p xs)
  DistinctBy-filter p [] d = tt
  DistinctBy-filter p (x ∷ xs) d = elim (Bool-cases (p x)) [
    | inr miss ↦ subst (DistinctBy key) (ground arith) (DistinctBy-filter p xs d.1)
    | inl hit ↦
        let kept : DistinctBy key (x ∷ filter p xs) = (
          none_of_members _ (filter p xs)
              (λ y m. unlike_members x y xs d.0 (member-filter p xs y m).0),
          DistinctBy-filter p xs d.1,
        ) in
        subst (DistinctBy key) {x = x ∷ filter p xs} (ground arith) kept
  ]

  DistinctBy-insert :
      (before : A → A → Bool) (x : A) (xs : List A)
      → any (λ y. text_eq (key y) (key x)) xs ≡ false
      → DistinctBy key xs
      → DistinctBy key (insert_by before x xs)
  unfolding insert_by
  DistinctBy-insert before x [] h d = (refl, tt)
  DistinctBy-insert before x (y ∷ xs) h d = elim (Bool-cases (before x y)) [
    | inl first ↦
        let kept : DistinctBy key (x ∷ y ∷ xs) = (h, d) in
        subst (DistinctBy key) {x = x ∷ y ∷ xs} (ground arith) kept
    | inr later ↦
        let kept : DistinctBy key (y ∷ insert_by before x xs) = (
          none_of_members _ (insert_by before x xs)
              (λ z m. apart z (member-insert before z x xs m)),
          DistinctBy-insert before x xs (ground arith) d.1,
        ) in
        subst (DistinctBy key) {x = y ∷ insert_by before x xs} (ground arith) kept
  ]
    where
      apart : (z : A) → Memᴰ z (x ∷ xs) → text_eq (key z) (key y) ≡ false
      apart z (Memᴰ.head e) =
          subst (λ w. text_eq (key w) (key y) ≡ false) (sym e)
            (text_eq_comm (key x) (key y) ∙ unlike_members x y (y ∷ xs) h (Memᴰ.head refl))
      apart z (Memᴰ.tail m) = unlike_members y z xs d.0 m

  pub DistinctBy-sort :
      (before : A → A → Bool) (xs : List A) → DistinctBy key xs → DistinctBy key (sort_by before xs)
  unfolding sort_by
  DistinctBy-sort before [] d = tt
  DistinctBy-sort before (x ∷ xs) d =
      DistinctBy-insert before x (sort_by before xs)
        (none_of_members _ (sort_by before xs)
          (λ y m. unlike_members x y xs d.0 (member-sort before y xs m)))
        (DistinctBy-sort before xs d.1)

  pub DistinctBy-take : (n : ℕ) (xs : List A) → DistinctBy key xs → DistinctBy key (take n xs)
  DistinctBy-take zero xs d = tt
  DistinctBy-take (suc n) [] d = tt
  DistinctBy-take (suc n) (x ∷ xs) d = (
    none_of_members _ (take n xs) (λ y m. unlike_members x y xs d.0 (member-take n y xs m)),
    DistinctBy-take n xs d.1,
  )
