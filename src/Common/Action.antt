-- ===== src/Common/Action.antt =====
-- Calls on the database. A promise that rejects is an error value; what a statement has written
-- before a later one throws stays written until the enclosing transaction rolls it back.
use mathlib.Core.Path.{◌≡◌, refl, ap}
use mathlib.Core.Logic.{◌⊎◌, inl, inr}
use mathlib.Core.Bool.{Bool}
use mathlib.Core.Option.{Option, none, some}
use settle_flow.Common.Tests.{if◌then◌else◌}
use settle_flow.Common.Errors.{Error}

pub data Result {ℓ} (A : Type ℓ) : Type ℓ where
  ok : A → Result A
  err : Error → Result A

abbrev pub Action : Type 0 → Type 0 → Type 0
Action S A = S → Result A × S

module _ {S A : Type 0} where
  abbrev pub pure : A → Action S A
  pure a s = (ok a, s)

  abbrev pub throw : Error → Action S A
  throw e s = (err e, s)

  abbrev pub gets : (S → A) → Action S A
  gets f s = (ok (f s), s)

  abbrev pub or_throw : Option A → Error → Action S A
  or_throw none e = throw e
  or_throw (some a) e = pure a

infixl 5 ◌>>=◌ ◌>>◌
abbrev pub ◌>>=◌ : {S A B : Type 0} → Action S A → (A → Action S B) → Action S B
◌>>=◌ m f s = let (r, s') = m s in elim r [ ok a ↦ f a s' | err e ↦ throw e s' ]

abbrev pub ◌>>◌ : {S A B : Type 0} → Action S A → Action S B → Action S B
m >> k = m >>= λ _. k

abbrev pub throw_if : {S : Type 0} → Bool → Error → Action S (Unit {0})
throw_if b e s = (if b then err e else ok tt, s)

abbrev pub modify : {S : Type 0} → (S → S) → Action S (Unit {0})
modify f s = (ok tt, f s)

-- `$transaction`: an error rolls every write back.
abbrev pub transaction : {S A : Type 0} → Action S A → Action S A
transaction m s = let (r, s') = m s in elim r [ ok a ↦ (ok a, s') | err e ↦ (err e, s) ]

pub Result-cases {ℓ} :
    {A : Type ℓ} (r : Result A) → ((e : Error) × (r ≡ err e)) ⊎ ((a : A) × (r ≡ ok a))
Result-cases (ok a) = inr (a, refl)
Result-cases (err e) = inl (e, refl)

module _ {S A B : Type 0} where
  abbrev pub continue_with : (A → Action S B) → Result A × S → Result B × S
  continue_with f r = elim (r.0) [ ok a ↦ f a r.1 | err e ↦ throw e r.1 ]

  -- A call goes on from what its first part returns.
  pub bind_runs :
      (m : Action S A) (f : A → Action S B) (s : S) (r : Result A × S)
      → m s ≡ r
      → (m >>= f) s ≡ continue_with f r
  bind_runs m f s r e = ap (continue_with f) e

-- What is done without a value, and with one.
abbrev pub on_some : {S A B : Type 0} → Option A → Action S B → (A → Action S B) → Action S B
on_some none otherwise use' = otherwise
on_some (some a) otherwise use' = use' a

module _ {S A : Type 0} where
  abbrev pub commit_or_restore : S → Result A × S → Result A × S
  commit_or_restore s r = elim (r.0) [ ok a ↦ (ok a, r.1) | err e ↦ (err e, s) ]

  -- A transaction commits or restores, by what its body returns.
  pub transaction_runs :
      (m : Action S A) (s : S) (r : Result A × S)
      → m s ≡ r
      → transaction m s ≡ commit_or_restore s r
  transaction_runs m s r e = ap (commit_or_restore s) e

  -- What holds before and after the body holds after the transaction.
  pub transaction-kept :
      (P : S → Type 0) (m : Action S A) (s : S) → P s → P (m s).1 → P (transaction m s).1
  transaction-kept P m s before after = elim (Result-cases (m s).0) [
    | inl (e, thrown) ↦ rw (transaction_runs m s (err e, (m s).1) (λ i. (thrown i, (m s).1))) before
    | inr (a, done) ↦ rw (transaction_runs m s (ok a, (m s).1) (λ i. (done i, (m s).1))) after
  ]

module _ {S A B : Type 0} (P : S → Type 0) where
  -- What each of two calls keeps, the one after the other keeps.
  pub bind-kept :
      (m : Action S A) (f : A → Action S B) (s : S)
      → P (m s).1
      → ((a : A) (t : S) → P t → P (f a t).1)
      → P ((m >>= f) s).1
  bind-kept m f s first then' = elim (Result-cases (m s).0) [
    | inl (e, thrown) ↦ rw (bind_runs m f s (err e, (m s).1) (λ i. (thrown i, (m s).1))) first
    | inr (a, done) ↦
        rw (bind_runs m f s (ok a, (m s).1) (λ i. (done i, (m s).1))) (then' a (m s).1 first)
  ]
