-- ===== src/Webhooks/Bookkeeping.antt =====
-- What holds of the tables of webhook delivery between two calls: the constraints on every delivery,
-- and that the attempts on record are those that each delivery has counted.
use settle_flow.Webhooks.Starting.{previous_version, current_version}
use settle_flow.Webhooks.Repository.{with_id, update_deliveries}
use settle_flow.Webhooks.Checks.{delivery_checks}
use settle_flow.Webhooks.Rows.{
  WebhookSecret, WebhookTables, WebhookDeliveryAttempt, WebhookDelivery,
}
use settle_flow.Common.Text.{text_eq_refl, text_eq_comm, text_eq, eq_of_text_eq, Text}
use settle_flow.Common.Distinct.{same_of_key, DistinctBy-map, DistinctBy}
use settle_flow.Common.Members.{All-member, All-intro}
use settle_flow.Common.{
  ◌≤◌, ◌<◌, some, is_some, Bool-cases, if◌then◌else◌, ◌≡◌, ◌∷◌, ◌+◌, ◌++◌, ℕ, true, sym, subst, inr,
  inl, count_if-append, count_if, arith, [], List, Bool, All-image, All,
}
use mathlib.Core.List.{Memᴰ}

abbrev pub open_attempts : WebhookDelivery → ℕ
open_attempts d = if is_some d.active_attempt_number then 1 else 0

abbrev pub recorded_attempts : List WebhookDeliveryAttempt → Text → ℕ
recorded_attempts attempts id = count_if (λ a. text_eq a.delivery_id id) attempts

abbrev pub IsCounted : List WebhookDeliveryAttempt → WebhookDelivery → Type 0
IsCounted attempts d = recorded_attempts attempts d.id + open_attempts d ≡ d.attempt_count

-- The versions of an endpoint's secrets: a current one counts from 1, and one that still overlaps
-- with it came before it.
pub record SecretsInOrder (secrets : List WebhookSecret) : Type 0 where
  pub current_pos :
      (endpoint_id : Text) (v : ℕ) → current_version endpoint_id secrets ≡ some v → 1 ≤ v
  pub previous_before :
      (endpoint_id : Text) (v now p : ℕ)
      → current_version endpoint_id secrets ≡ some v
      → previous_version now endpoint_id secrets ≡ some p
      → (1 ≤ p) × (p < v)

pub record WellKept (s : WebhookTables) : Type 0 where
  pub distinct : DistinctBy (λ d. d.id) s.deliveries
  pub checked : All (λ d. delivery_checks d ≡ true) s.deliveries
  pub counted : All (IsCounted s.attempts) s.deliveries
  pub ordered : SecretsInOrder s.secrets

updated_id :
    (p : WebhookDelivery → Bool) (f : WebhookDelivery → WebhookDelivery)
    → ((d : WebhookDelivery) → (f d).id ≡ d.id)
    → (d : WebhookDelivery) → (if p d then f d else d).id ≡ d.id
updated_id p f keeps d = ground (arith, keeps d)

-- Where each row that is updated keeps to the constraints and to its count, all rows do.
pub update-WellKept :
    (p : WebhookDelivery → Bool) (f : WebhookDelivery → WebhookDelivery) (s : WebhookTables)
    → ((d : WebhookDelivery) → (f d).id ≡ d.id)
    → ((d : WebhookDelivery)
        → Memᴰ d s.deliveries
        → p d ≡ true
        → delivery_checks d ≡ true
        → (delivery_checks (f d) ≡ true)
          × (open_attempts (f d) + d.attempt_count ≡ open_attempts d + (f d).attempt_count))
    → WellKept s
    → WellKept (update_deliveries p f s)
update-WellKept p f s keeps good w = record {
  distinct = DistinctBy-map (λ d. d.id) _ s.deliveries (updated_id p f keeps) w.distinct;
  checked =
      All-image (λ d. delivery_checks d ≡ true) _ s.deliveries (All-intro _ s.deliveries checks);
  counted = All-image (IsCounted s.attempts) _ s.deliveries (All-intro _ s.deliveries counts);
  ordered = w.ordered;
}
  where
    checks :
        (d : WebhookDelivery)
        → Memᴰ d s.deliveries
        → delivery_checks (if p d then f d else d) ≡ true
    checks d m =
        let before = All-member (λ d. delivery_checks d ≡ true) s.deliveries d m w.checked in
        elim (Bool-cases (p d)) [
          | inr miss ↦ rw miss before
          | inl hit ↦ rw hit (good d m hit before).0
        ]

    counts :
        (d : WebhookDelivery) → Memᴰ d s.deliveries → IsCounted s.attempts (if p d then f d else d)
    counts d m =
        let before = All-member (λ d. delivery_checks d ≡ true) s.deliveries d m w.checked in
        let count = All-member (IsCounted s.attempts) s.deliveries d m w.counted in
        elim (Bool-cases (p d)) [
          | inr miss ↦ rw miss count
          | inl hit ↦ rw hit (rw (keeps d) (omega (arith, (good d m hit before).1)))
        ]

-- Where an attempt is put on record for a row that then keeps to the constraints, and counts it, all
-- rows do.
pub record-WellKept :
    (a : WebhookDeliveryAttempt) (row : WebhookDelivery) (f : WebhookDelivery → WebhookDelivery)
    (s : WebhookTables)
    → ((d : WebhookDelivery) → (f d).id ≡ d.id)
    → Memᴰ row s.deliveries
    → a.delivery_id ≡ row.id
    → delivery_checks (f row) ≡ true
    → open_attempts (f row) + row.attempt_count + 1 ≡ open_attempts row + (f row).attempt_count
    → WellKept s
    → WellKept
        (update_deliveries (with_id row.id) f (record s { attempts = s.attempts ++ (a ∷ []) }))
record-WellKept a row f s keeps known of_row good count w = record {
  distinct =
      DistinctBy-map (λ d. d.id) _ s.deliveries (updated_id (with_id row.id) f keeps) w.distinct;
  checked =
      All-image (λ d. delivery_checks d ≡ true) _ s.deliveries (All-intro _ s.deliveries checks);
  counted = All-image (IsCounted attempts) _ s.deliveries (All-intro _ s.deliveries counts);
  ordered = w.ordered;
}
  where
    attempts : List WebhookDeliveryAttempt
    attempts = s.attempts ++ (a ∷ [])

    is_row : (d : WebhookDelivery) → Memᴰ d s.deliveries → with_id row.id d ≡ true → row ≡ d
    is_row d m hit =
        same_of_key (λ d. d.id) s.deliveries row d w.distinct known m
          (sym (eq_of_text_eq d.id row.id hit))

    checks :
        (d : WebhookDelivery)
        → Memᴰ d s.deliveries
        → delivery_checks (if with_id row.id d then f d else d) ≡ true
    checks d m = elim (Bool-cases (with_id row.id d)) [
      | inr miss ↦ rw miss (All-member (λ d. delivery_checks d ≡ true) s.deliveries d m w.checked)
      | inl hit ↦ rw hit (subst (λ x. delivery_checks (f x) ≡ true) (is_row d m hit) good)
    ]

    told : text_eq a.delivery_id row.id ≡ true
    told = rw of_row (text_eq_refl row.id)

    at_row : IsCounted attempts (f row)
    at_row =
        let before = All-member (IsCounted s.attempts) s.deliveries row known w.counted in
        let split =
          count_if-append (λ (b : WebhookDeliveryAttempt). text_eq b.delivery_id row.id) s.attempts
            (a ∷ []) in
        rw (keeps row) (ground (arith, split, before, told, count))

    counts :
        (d : WebhookDelivery)
        → Memᴰ d s.deliveries
        → IsCounted attempts (if with_id row.id d then f d else d)
    counts d m =
        let before = All-member (IsCounted s.attempts) s.deliveries d m w.counted in
        let split =
          count_if-append (λ (b : WebhookDeliveryAttempt). text_eq b.delivery_id d.id) s.attempts
            (a ∷ []) in
        elim (Bool-cases (with_id row.id d)) [
          | inr miss ↦ rw miss (ground (arith, split, before, text_eq_comm row.id d.id))
          | inl hit ↦ rw hit (subst (λ x. IsCounted attempts (f x)) (is_row d m hit) at_row)
        ]
