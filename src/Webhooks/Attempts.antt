-- ===== src/Webhooks/Attempts.antt =====
-- The calls of prisma-webhook-delivery.repository.ts keep the books: claims, and the start and the
-- end of an attempt.
use settle_flow.Common.Distinct.{same_of_key}
use settle_flow.Common.Action.{throw_if, bind_runs, Result-cases, pure, ◌>>◌, ok, err}
use settle_flow.Common.Errors.{Error, database}
use settle_flow.Webhooks.Starting.{create_attempt}
use settle_flow.Webhooks.Marking.{unclaimed-checks, claimed-checks}
use settle_flow.Webhooks.Checks.{delivery_checks, attempt_checks}
use settle_flow.Common.Members.{member-take, member-sort, member-filter, any_witness}
use settle_flow.Webhooks.Bookkeeping.{update-WellKept, record-WellKept, open_attempts, WellKept}
use settle_flow.Common.Text.{text_eq, eq_of_text_eq, Text}
use settle_flow.Webhooks.Repository.{
  with_id, update_deliveries, unclaimed, is_due_delivery, is_clearable, is_among, due_deliveries,
  clear_claim, claimed, claim_due_at, Moment,
}
use settle_flow.Common.{
  false, Bool, ◌∙◌, sym, ◌==◌, Bool-cases, ◌⊎◌, ◌≡◌, ◌∷◌, ◌||◌, ◌+◌, ◌++◌, ◌&&◌, ℕ, true, subst,
  refl, not, inr, inl, filter, arith, any, [], List,
}
use settle_flow.Webhooks.Rows.{
  WebhookTables, WebhookDeliveryAttempt, WebhookDelivery, WebhookCall, ClaimedDelivery,
}
use mathlib.Core.List.{Memᴰ}

-- A call of which every run within a transaction keeps the tables so.
abbrev pub KeepsBooks : {A : Type 0} → (Moment → WebhookCall A) → Type 0
KeepsBooks op = (m : Moment) (s : WebhookTables) → WellKept s → WellKept (op m s).1

due_member :
    (m : Moment) (n : ℕ) (s : WebhookTables) (d : WebhookDelivery)
    → Memᴰ d (due_deliveries m n s)
    → Memᴰ d s.deliveries × (is_due_delivery m d ≡ true)
unfolding due_deliveries
due_member m n s d k =
    member-filter (is_due_delivery m) s.deliveries d
      (member-sort _ d (filter (is_due_delivery m) s.deliveries) (member-take n d _ k))

-- A delivery whose identifier is among those of some rows of the table is one of them.
pub among_member :
    (s : WebhookTables) (rows : List WebhookDelivery) (d : WebhookDelivery)
    → WellKept s
    → ((r : WebhookDelivery) → Memᴰ r rows → Memᴰ r s.deliveries)
    → Memᴰ d s.deliveries
    → is_among rows d ≡ true
    → Memᴰ d rows
among_member s rows d w within m h =
    let (c, k, same) = any_witness (λ c. text_eq c.id d.id) rows h in
    subst (λ x. Memᴰ x rows)
      (same_of_key (λ x. x.id) s.deliveries c d w.distinct (within c k) m
        (eq_of_text_eq c.id d.id same))
      k

pub claim_due-KeepsBooks : (worker_id : Text) (n : ℕ) → KeepsBooks (claim_due_at worker_id n)
unfolding claim_due_at
claim_due-KeepsBooks worker_id n m s w =
    update-WellKept (is_among (due_deliveries m n s)) (claimed m worker_id) s (λ d. refl)
      (λ d k taken checks.
        let due =
          due_member m n s d
            (among_member s (due_deliveries m n s) d w (λ r i. (due_member m n s r i).0) k taken) in
        (claimed-checks m worker_id d checks due.1, refl))
      w

pub clear_claim-KeepsBooks : (claim : ClaimedDelivery) → KeepsBooks (λ _. clear_claim claim)
unfolding clear_claim
clear_claim-KeepsBooks claim m s w =
    update-WellKept (is_clearable claim) unclaimed s (λ d. refl)
      (λ d k hit checks. (unclaimed-checks d checks (ground arith), refl)) w

pub create_attempt-cases :
    (a : WebhookDeliveryAttempt) (s : WebhookTables)
    → (create_attempt a s ≡ (err database, s))
      ⊎ (create_attempt a s ≡ (ok tt, record s { attempts = s.attempts ++ (a ∷ []) }))
unfolding create_attempt
create_attempt-cases a s =
    elim (Bool-cases (
      not (attempt_checks a)
      || any
          (λ b.
            text_eq b.id a.id
            || (text_eq b.delivery_id a.delivery_id && b.attempt_number == a.attempt_number))
          s.attempts)) [ inl bad ↦ inl (rw bad) | inr good ↦ inr (rw good) ]

-- What follows the record of an attempt runs only if the record was accepted.
pub create_then :
    {B : Type 0} (a : WebhookDeliveryAttempt) (k : WebhookCall B) (s : WebhookTables)
    → WellKept s
    → WellKept (k (record s { attempts = s.attempts ++ (a ∷ []) })).1
    → WellKept ((create_attempt a >> k) s).1
create_then a k s w next = elim (create_attempt-cases a s) [
  | inl refused ↦ rw (bind_runs (create_attempt a) (λ _. k) s (err database, s) refused) w
  | inr done ↦
      rw
        (bind_runs (create_attempt a) (λ _. k) s
          (ok tt, record s { attempts = s.attempts ++ (a ∷ []) }) done)
        next
]

then_pure :
    {A B : Type 0} (op : WebhookCall A) (b : B) (s : WebhookTables)
    → ((op >> pure b) s).1 ≡ (op s).1
then_pure op b s = elim (Result-cases (op s).0) [
  | inl (e, failed') ↦
      rw (bind_runs op (λ _. pure b) s (err e, (op s).1) (λ i. (failed' i, (op s).1)))
  | inr (x, done) ↦ rw (bind_runs op (λ _. pure b) s (ok x, (op s).1) (λ i. (done i, (op s).1)))
]

pub then_pure-WellKept :
    {A B : Type 0} (op : WebhookCall A) (b : B) (s : WebhookTables)
    → WellKept (op s).1
    → WellKept ((op >> pure b) s).1
then_pure-WellKept op b s w = subst WellKept (sym (then_pure op b s)) w

-- An update by an identifier of a row whose attempt has just been put on record.
pub recorded-WellKept :
    (a : WebhookDeliveryAttempt) (row : WebhookDelivery) (f : WebhookDelivery → WebhookDelivery)
    (id : Text) (s : WebhookTables)
    → ((d : WebhookDelivery) → (f d).id ≡ d.id)
    → Memᴰ row s.deliveries
    → row.id ≡ id
    → a.delivery_id ≡ id
    → delivery_checks (f row) ≡ true
    → open_attempts (f row) + row.attempt_count + 1 ≡ open_attempts row + (f row).attempt_count
    → WellKept s
    → WellKept (update_deliveries (with_id id) f (record s { attempts = s.attempts ++ (a ∷ []) }))
recorded-WellKept a row f id s keeps known of_row told good count w =
    subst
      (λ i.
        WellKept (update_deliveries (with_id i) f (record s { attempts = s.attempts ++ (a ∷ []) })))
      of_row (record-WellKept a row f s keeps known (told ∙ sym of_row) good count w)

pub throw_if_then :
    {B : Type 0} (b : Bool) (e : Error) (k : WebhookCall B) (s : WebhookTables)
    → WellKept s
    → (b ≡ false → WellKept (k s).1)
    → WellKept ((throw_if b e >> k) s).1
throw_if_then true e k s w next = w
throw_if_then false e k s w next = next refl
