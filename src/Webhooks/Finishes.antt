-- ===== src/Webhooks/Finishes.antt =====
-- The end of an attempt keeps the books, whether it is finalized or recovered: `finalizeAttempt` and
-- `recoverExpired` of prisma-webhook-delivery.repository.ts.
use settle_flow.Common.Distinct.{DistinctBy-take, DistinctBy-sort, DistinctBy-filter, DistinctBy}
use settle_flow.Common.Action.{bind_runs, throw_if, ok, err, Result-cases, pure, ◌>>◌, modify}
use settle_flow.Webhooks.Starting.{create_attempt}
use settle_flow.Common.Errors.{database, Error, unclassified}
use settle_flow.Eventing.Relay.Service.{idle}
use settle_flow.Webhooks.Marking.{unclaimed-checks, recovered-checks, finished-checks}
use settle_flow.Webhooks.Finishing.{
  recover_rows, recover_expired_at, nothing_recovered, lapsed_deliveries, has_lapsed,
  count_recovery, unknown_attempt, recovered, recover_row, recover_active, is_retrying,
  is_as_started, is_active_attempt, finished_attempt, finished, finalize_locked,
  finalize_attempt_at, final_status,
}
use settle_flow.Common.Text.{eq_of_text_eq}
use settle_flow.Webhooks.Checks.{passes, is_none, delivery_checks}
use settle_flow.Webhooks.Attempts.{
  create_attempt-cases, KeepsBooks, throw_if_then, recorded-WellKept, create_then,
}
use settle_flow.Webhooks.Bookkeeping.{update-WellKept, open_attempts, WellKept}
use settle_flow.Webhooks.Repository.{
  update_deliveries, with_id, unclaimed, clear_claim_by_id, Moment,
}
use settle_flow.Webhooks.Rows.{
  WebhookDeliveryAttempt, WebhookCall, FinalizationResult, WebhookTables, WebhookDelivery,
  StartedAttempt, RecoveryResult, Evidence, DeliveryStatus, ClaimedDelivery,
}
use settle_flow.Common.Members.{
  member-take, member-sort, member-filter, map-member, any-false, All-intro, find?-member,
  All-member,
}
use settle_flow.Common.{
  if◌then◌else◌, ◌∷◌, ◌++◌, subst, false, [], Bool, leb, Bool-cases, Option-cases, ◌==◌, ◌≡◌, ◌||◌,
  ◌&&◌, ℕ, true, some, refl, none, inr, inl, find?, arith, Option, List, All,
}
use mathlib.Core.List.{Memᴰ}

active_count :
    (d : WebhookDelivery) (n : ℕ) → d.active_attempt_number ≡ some n → open_attempts d ≡ 1
active_count d n e = rw e

is_number : (o : Option ℕ) (n : ℕ) → passes o (λ k. k == n) ≡ true → o ≡ some n
is_number none n h = cc
is_number (some k) n h = ground arith

finalize_locked-WellKept :
    (m : Moment) (claim : ClaimedDelivery) (attempt : StartedAttempt) (evidence : Evidence)
    (row : WebhookDelivery) (s : WebhookTables)
    → WellKept s
    → Memᴰ row s.deliveries
    → is_active_attempt m.now claim attempt.attempt_number row ≡ true
    → WellKept (finalize_locked m claim attempt evidence row s).1
unfolding finalize_locked
finalize_locked-WellKept m claim attempt evidence row s w known active =
    let number : row.active_attempt_number ≡ some attempt.attempt_number =
      is_number row.active_attempt_number attempt.attempt_number (ground arith) in
    let checks = All-member (λ d. delivery_checks d ≡ true) s.deliveries row known w.checked in
    let status : DeliveryStatus = final_status evidence.outcome attempt.attempt_number in
    let a = finished_attempt m claim attempt evidence row in
    let store : WebhookCall FinalizationResult =
      modify (
        update_deliveries (with_id claim.delivery_id)
          (finished m.later status attempt.next_attempt_at))
      >> pure (record { status = status; updated = true }) in
    throw_if_then (is_retrying status && is_none attempt.next_attempt_at) unclassified
      (create_attempt a >> store) s w
      λ good. create_then a store s w (
        recorded-WellKept (finished_attempt m claim attempt evidence row) row
          (finished m.later status attempt.next_attempt_at) claim.delivery_id s (λ d. refl) known
          (eq_of_text_eq row.id claim.delivery_id (ground arith)) refl
          (finished-checks m.later evidence.outcome attempt.attempt_number attempt.next_attempt_at
            row checks number good)
          (omega (arith, active_count row attempt.attempt_number number)) w)

pub finalize_attempt-KeepsBooks :
    (claim : ClaimedDelivery) (attempt : StartedAttempt) (evidence : Evidence)
    → KeepsBooks (finalize_attempt_at claim attempt evidence)
unfolding finalize_attempt_at
finalize_attempt-KeepsBooks claim attempt evidence m s w =
    elim (Option-cases
      (find? (is_active_attempt m.now claim attempt.attempt_number) s.deliveries)) [
        | inl gone ↦ rw gone w
        | inr (row, found) ↦ rw found (
            let (known, active) =
              find?-member (is_active_attempt m.now claim attempt.attempt_number) s.deliveries row
                found in
            elim (Bool-cases (is_as_started attempt row)) [
              | inr other ↦ rw other w
              | inl same ↦
                  rw same (finalize_locked-WellKept m claim attempt evidence row s w known active)
            ])
      ]

-- The rows that a recovery has still to do are rows of the table.
abbrev Within : List WebhookDelivery → WebhookTables → Type 0
Within rows s = All (λ r. Memᴰ r s.deliveries) rows

recover_active-WellKept :
    (m : Moment) (row : WebhookDelivery) (n : ℕ) (counts : RecoveryResult) (s : WebhookTables)
    → WellKept s
    → Memᴰ row s.deliveries
    → row.active_attempt_number ≡ some n
    → WellKept (recover_active m row n counts s).1
unfolding recover_active
recover_active-WellKept m row n counts s w known number =
    elim (Option-cases row.active_attempt_started_at) [
      | inl missing ↦ rw missing w
      | inr (started_at, begun') ↦ rw begun' (
          let checks =
            All-member (λ d. delivery_checks d ≡ true) s.deliveries row known w.checked in
          let a = unknown_attempt m row n started_at in
          let store : WebhookCall RecoveryResult =
            modify (update_deliveries (with_id row.id) (recovered a.completed_at (leb 7 n)))
            >> pure (count_recovery (leb 7 n) counts) in
          throw_if_then
            (is_none row.active_signature_timestamp || is_none row.active_current_secret_version)
            unclassified (create_attempt a >> store) s w
            λ good. create_then a store s w (
              recorded-WellKept a row (recovered a.completed_at (leb 7 n)) row.id s (λ d. refl)
                known refl refl (recovered-checks a.completed_at n row checks number)
                (omega (arith, active_count row n number)) w))
    ]

recover_row-WellKept :
    (m : Moment) (row : WebhookDelivery) (counts : RecoveryResult) (s : WebhookTables)
    → WellKept s
    → Memᴰ row s.deliveries
    → WellKept (recover_row m row counts s).1
unfolding recover_row clear_claim_by_id
recover_row-WellKept m row counts s w known = elim (Option-cases row.active_attempt_number) [
  | inr (n, number) ↦ rw number (recover_active-WellKept m row n counts s w known number)
  | inl idle ↦ rw idle (
      update-WellKept (λ d. with_id row.id d && is_none d.active_attempt_number) unclaimed s
        (λ d. refl) (λ d k hit checks. (unclaimed-checks d checks (ground arith), refl)) w)
]

member-update :
    (p : WebhookDelivery → Bool) (f : WebhookDelivery → WebhookDelivery) (s : WebhookTables)
    (r : WebhookDelivery)
    → Memᴰ r s.deliveries
    → p r ≡ false
    → Memᴰ r (update_deliveries p f s).deliveries
member-update p f s r m h =
    subst (λ x. Memᴰ x (update_deliveries p f s).deliveries) {x = if p r then f r else r} (rw h)
      (map-member (λ d. if p d then f d else d) s.deliveries r m)

create_then-member :
    {B : Type 0} (a : WebhookDeliveryAttempt) (k : WebhookCall B) (s : WebhookTables)
    (r : WebhookDelivery)
    → Memᴰ r s.deliveries
    → Memᴰ r (k (record s { attempts = s.attempts ++ (a ∷ []) })).1.deliveries
    → Memᴰ r ((create_attempt a >> k) s).1.deliveries
create_then-member a k s r m next = elim (create_attempt-cases a s) [
  | inl refused ↦ rw (bind_runs (create_attempt a) (λ _. k) s (err database, s) refused) m
  | inr done ↦
      rw
        (bind_runs (create_attempt a) (λ _. k) s
          (ok tt, record s { attempts = s.attempts ++ (a ∷ []) }) done)
        next
]

throw_if_then-member :
    {B : Type 0} (b : Bool) (e : Error) (k : WebhookCall B) (s : WebhookTables)
    (r : WebhookDelivery)
    → Memᴰ r s.deliveries
    → Memᴰ r (k s).1.deliveries
    → Memᴰ r ((throw_if b e >> k) s).1.deliveries
throw_if_then-member true e k s r m next = m
throw_if_then-member false e k s r m next = next

-- A recovery of one row leaves the others.
recover_row-others :
    (m : Moment) (row : WebhookDelivery) (counts : RecoveryResult) (s : WebhookTables)
    (r : WebhookDelivery)
    → Memᴰ r s.deliveries
    → with_id row.id r ≡ false
    → Memᴰ r (recover_row m row counts s).1.deliveries
unfolding recover_row clear_claim_by_id recover_active
recover_row-others m row counts s r known other = elim (Option-cases row.active_attempt_number) [
  | inl idle ↦ rw idle (
      member-update (λ d. with_id row.id d && is_none d.active_attempt_number) unclaimed s r known
        (rw other))
  | inr (n, number) ↦ rw number (elim (Option-cases row.active_attempt_started_at) [
    | inl missing ↦ rw missing known
    | inr (started_at, begun') ↦ rw begun' (
        let a = unknown_attempt m row n started_at in
        let store : WebhookCall RecoveryResult =
          modify (update_deliveries (with_id row.id) (recovered a.completed_at (leb 7 n)))
          >> pure (count_recovery (leb 7 n) counts) in
        throw_if_then-member
          (is_none row.active_signature_timestamp || is_none row.active_current_secret_version)
          unclassified (create_attempt a >> store) s r known
          (create_then-member a store s r known (
            member-update (with_id row.id) (recovered a.completed_at (leb 7 n))
              (record s { attempts = s.attempts ++ (a ∷ []) }) r known other)))
  ])
]

recover_rows-WellKept :
    (m : Moment) (rows : List WebhookDelivery) (counts : RecoveryResult) (s : WebhookTables)
    → DistinctBy (λ d. d.id) rows
    → Within rows s
    → WellKept s
    → WellKept (recover_rows m rows counts s).1
unfolding recover_rows
recover_rows-WellKept m [] counts s distinct within w = w
recover_rows-WellKept m (row ∷ rows) counts s distinct within w =
    let kept = recover_row-WellKept m row counts s w within.0 in
    let s' : WebhookTables = (recover_row m row counts s).1 in
    let still : Within rows s' = All-intro _ rows λ r i.
      recover_row-others m row counts s r (All-member (λ r. Memᴰ r s.deliveries) rows r i within.1)
        (any-false (λ d. with_id row.id d) rows r i distinct.0) in
    elim (Result-cases (recover_row m row counts s).0) [
      | inl (e, failed') ↦
          rw
            (bind_runs (recover_row m row counts) (recover_rows m rows) s (err e, s')
              (λ i. (failed' i, s')))
            kept
      | inr (counts', done) ↦
          rw
            (bind_runs (recover_row m row counts) (recover_rows m rows) s (ok counts', s')
              (λ i. (done i, s')))
            (recover_rows-WellKept m rows counts' s' distinct.1 still kept)
    ]

pub recover_expired-KeepsBooks : (limit : ℕ) → KeepsBooks (recover_expired_at limit)
unfolding recover_expired_at lapsed_deliveries
recover_expired-KeepsBooks limit m s w =
    recover_rows-WellKept m _ nothing_recovered s
      (DistinctBy-take (λ d. d.id) limit _
        (DistinctBy-sort (λ d. d.id) _ _
          (DistinctBy-filter (λ d. d.id) (has_lapsed m) s.deliveries w.distinct)))
      (All-intro _ _ λ r i.
        (member-filter (has_lapsed m) s.deliveries r
          (member-sort _ r _ (member-take limit r _ i))).0)
      w
