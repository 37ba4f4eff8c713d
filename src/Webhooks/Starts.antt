-- ===== src/Webhooks/Starts.antt =====
-- The start of an attempt keeps the books: `startAttempt` of prisma-webhook-delivery.repository.ts.
use settle_flow.Common.Action.{modify}
use settle_flow.Common.Distinct.{same_of_key}
use settle_flow.Webhooks.Attempts.{
  then_pure-WellKept, clear_claim-KeepsBooks, recorded-WellKept, create_then,
}
use settle_flow.Webhooks.Marking.{dead_inactive-checks, begun-checks}
use settle_flow.Webhooks.Starting.{
  start_attempt_at, is_other_previous, start_locked, same_version, previous_version,
  persist_inactive_attempt, is_startable, is_own, is_bad_start, inactive_attempt, dead_inactive,
  current_version, begun, begin_attempt,
}
use settle_flow.Webhooks.Checks.{is_none, delivery_checks, absent_or}
use settle_flow.Webhooks.Bookkeeping.{update-WellKept, open_attempts, WellKept}
use settle_flow.Common.Text.{text_eq, eq_of_text_eq}
use settle_flow.Common.{
  ◌||◌, not, find?, ◌==◌, Option-cases, ltb, leb, Bool-cases, is_some, ◌≤◌, ◌≡◌, ◌∙◌, ◌+◌, ◌&&◌, ℕ,
  true, sym, subst, some, refl, none, inr, inl, false, arith, any, Option,
}
use settle_flow.Webhooks.Repository.{clear_claim, with_id, update_deliveries, is_open, Moment}
use settle_flow.Webhooks.Rows.{
  StartResult, WebhookEndpoint, WebhookTables, WebhookDelivery, DeliveryContext,
}
use settle_flow.Common.Members.{find?-member, All-member}
use mathlib.Core.List.{Memᴰ}

same_version-eq : (o : Option ℕ) (v : ℕ) → same_version o v ≡ true → o ≡ some v
same_version-eq none v h = cc
same_version-eq (some w) v h = ground arith

module _ (context : DeliveryContext) (retry_delay_ms : Option ℕ) (m : Moment) (s : WebhookTables)
    (row : WebhookDelivery) (w : WellKept s) (known : Memᴰ row s.deliveries)
    (startable : is_startable m.now context.claim row ≡ true)
    (counted : row.attempt_count ≡ context.claim.attempt_count) where
  row_id : row.id ≡ context.claim.delivery_id
  row_id = eq_of_text_eq row.id context.claim.delivery_id (ground arith)

  row_checks : delivery_checks row ≡ true
  row_checks = All-member (λ d. delivery_checks d ≡ true) s.deliveries row known w.checked

  row_idle : is_none row.active_attempt_number ≡ true
  row_idle = ground arith

  row_open : is_open row.status ≡ true
  row_open = ground arith

  row_claimed : is_some row.claim_token ≡ true
  row_claimed = ground arith

  idle_count : open_attempts row ≡ 0
  idle_count = ground (arith, row_idle)

  persist-WellKept :
      WellKept (persist_inactive_attempt m context.claim (context.claim.attempt_count + 1) s).1
  unfolding persist_inactive_attempt
  persist-WellKept =
      create_then (inactive_attempt m context.claim (context.claim.attempt_count + 1))
        (modify (
          update_deliveries (with_id context.claim.delivery_id)
            (dead_inactive m.later (context.claim.attempt_count + 1))))
        s w
        (recorded-WellKept (inactive_attempt m context.claim (context.claim.attempt_count + 1)) row
          (dead_inactive m.later (context.claim.attempt_count + 1)) context.claim.delivery_id s
          (λ d. refl) known row_id refl
          (subst (λ n. delivery_checks (dead_inactive m.later (n + 1) row) ≡ true) counted
            (dead_inactive-checks m.later row row_checks row_open row_idle))
          (omega (arith, counted)) w)

  begin-WellKept :
      1000 ≤ m.later
      → is_bad_start (context.claim.attempt_count + 1) retry_delay_ms ≡ false
      → same_version
          (current_version row.endpoint_id s.secrets)
          context.current_secret.secret_version
        ≡ true
      → WellKept
          (begin_attempt m context
            (context.claim.attempt_count + 1)
            (previous_version m.now row.endpoint_id s.secrets)
            retry_delay_ms
            s).1
  unfolding begin_attempt
  begin-WellKept late good same =
      elim (Bool-cases (any (is_own m.later context.claim) s.deliveries)) [
        | inr lost ↦ rw lost w
        | inl own ↦ rw own (
            let v = context.current_secret.secret_version in
            let selected = same_version-eq (current_version row.endpoint_id s.secrets) v same in
            let older : absent_or (previous_version m.now row.endpoint_id s.secrets)
                  (λ p. leb 1 p && ltb p v)
                ≡ true =
              elim (Option-cases (previous_version m.now row.endpoint_id s.secrets)) [
                | inl nothing' ↦ rw nothing'
                | inr (p, e) ↦
                    rw e (
                      ground
                        (arith, w.ordered.previous_before row.endpoint_id v m.now p selected e))
              ] in
            update-WellKept (is_own m.later context.claim) _ s (λ d. refl)
              (λ d k hit checks.
                let same_row : row ≡ d =
                  same_of_key (λ x. x.id) s.deliveries row d w.distinct known k
                    (row_id ∙ sym (eq_of_text_eq d.id context.claim.delivery_id (ground arith))) in
                subst
                  (λ x.
                    (delivery_checks (
                        begun m context (context.claim.attempt_count + 1)
                          (previous_version m.now row.endpoint_id s.secrets) retry_delay_ms x)
                      ≡ true)
                    × (1 + x.attempt_count ≡ open_attempts x + (context.claim.attempt_count + 1)))
                  same_row
                  (
                    subst
                        (λ n.
                          delivery_checks (
                            begun m context (n + 1)
                              (previous_version m.now row.endpoint_id s.secrets) retry_delay_ms row)
                          ≡ true)
                        counted
                        (begun-checks m context (previous_version m.now row.endpoint_id s.secrets)
                          retry_delay_ms row row_checks row_open row_idle row_claimed
                          (subst (λ n. is_bad_start (n + 1) retry_delay_ms ≡ false) (sym counted)
                            good)
                          late (w.ordered.current_pos row.endpoint_id v selected) older),
                    omega (arith, counted, idle_count),
                  ))
              w)
      ]

pub start_locked-WellKept :
    (context : DeliveryContext) (retry_delay_ms : Option ℕ) (m : Moment) (s : WebhookTables)
    (row : WebhookDelivery) (endpoint : WebhookEndpoint)
    → WellKept s
    → Memᴰ row s.deliveries
    → is_startable m.now context.claim row ≡ true
    → 1000 ≤ m.later
    → is_bad_start (context.claim.attempt_count + 1) retry_delay_ms ≡ false
    → WellKept (start_locked m context retry_delay_ms row endpoint s).1
unfolding start_locked
start_locked-WellKept context retry_delay_ms m s row endpoint w known startable late good =
    elim (Bool-cases (row.attempt_count == context.claim.attempt_count)) [
      | inr moved ↦ rw moved w
      | inl same ↦ rw same (elim (Bool-cases endpoint.is_active) [
        | inr off ↦ rw off (
            then_pure-WellKept
              (persist_inactive_attempt m context.claim (context.claim.attempt_count + 1)) _ s
              (persist-WellKept context retry_delay_ms m s row w known startable (ground arith)))
        | inl on ↦
            rw on
              (elim (Bool-cases (
                not context.endpoint_is_active
                || not (
                    same_version (current_version row.endpoint_id s.secrets)
                      context.current_secret.secret_version)
                || is_other_previous (previous_version m.now row.endpoint_id s.secrets) context)) [
                  | inl changed ↦ rw changed (
                      then_pure-WellKept (clear_claim context.claim) StartResult.ownership_lost s
                        (clear_claim-KeepsBooks context.claim m s w))
                  | inr fits ↦ rw fits (
                      begin-WellKept context retry_delay_ms m s row w known startable (ground arith)
                        late good (ground arith))
                ])
      ])
    ]

pub start_attempt-KeepsBooks :
    (context : DeliveryContext) (retry_delay_ms : Option ℕ) (m : Moment) (s : WebhookTables)
    → 1000 ≤ m.later
    → is_bad_start (context.claim.attempt_count + 1) retry_delay_ms ≡ false
    → WellKept s
    → WellKept (start_attempt_at context retry_delay_ms m s).1
unfolding start_attempt_at
start_attempt-KeepsBooks context retry_delay_ms m s late good w =
    elim (Option-cases (find? (is_startable m.now context.claim) s.deliveries)) [
      | inl gone ↦ rw gone w
      | inr (row, found) ↦ rw found (
          let (known, startable) =
            find?-member (is_startable m.now context.claim) s.deliveries row found in
          elim (Option-cases (find? (λ e. text_eq e.id row.endpoint_id) s.endpoints)) [
            | inl none' ↦ rw none' w
            | inr (endpoint, there) ↦ rw there (
                start_locked-WellKept context retry_delay_ms m s row endpoint w known startable late
                  good)
          ])
    ]
