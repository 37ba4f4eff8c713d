-- ===== src/Eventing/Relay/Rows.antt =====
-- What a round of the relay does to one row of the outbox (outbox-relay.service.ts): it stays as it
-- is, is delivered because the broker confirmed it, or is put off.
use settle_flow.Payments.Refunds.{ids}
use settle_flow.Eventing.Relay.Finalizations.{untold_stays, told_settled, finalize_all}
use settle_flow.Eventing.Relay.Claims.{is_chosen-same_id, chosen_due}
use settle_flow.Common.Text.{text_eq_refl, text_eq, eq_of_text_eq, Text}
use settle_flow.Eventing.Retry.{scaled, calculate_full_jitter_backoff, Sample}
use settle_flow.Eventing.Relay.Service.{
  is_confirmed_in, finalization_of, RelayRound, PublishOutcome, OutboxRelayOptions,
}
use settle_flow.Database.Eventing.{OutboxEvent}
use settle_flow.Eventing.Relay.Repository.{
  touches, to_claimed, settled, lease, is_held_by, is_due, is_chosen, candidates,
  ClaimedOutboxEvent,
}
use settle_flow.Common.Members.{
  none_of_members, member-map, member-filter, map-member, filter-member, any_of_member, All-member,
}
use settle_flow.Common.{
  Bool-cases, if◌then◌else◌, ◌^◌, ◌≤◌, ◌≡◌, ◌∙◌, ◌-◌, ◌+◌, ◌*◌, ℕ, true, sym, subst, some, refl,
  none, min, map, inr, inl, filter, false, arith, ap, any, List, All,
}
use mathlib.Core.List.{Memᴰ}

-- `id` is the key of the table: rows with the same one are the same row.
abbrev pub OneRowPerId : List OutboxEvent → Type 0
OneRowPerId rows = All (λ e. All (λ f. e.id ≡ f.id → e ≡ f) rows) rows

abbrev pub delivered_row : RelayRound → OutboxEvent → OutboxEvent
delivered_row round e = record e {
  published_at = some round.finalized_at;
  locked_by = none;
  lease_expires_at = none;
  attempt_count = e.attempt_count + 1;
}

abbrev pub rescheduled_row : RelayRound → ℕ → OutboxEvent → OutboxEvent
rescheduled_row round delay e = record e {
  available_at = round.finalized_at + delay;
  locked_by = none;
  lease_expires_at = none;
  attempt_count = e.attempt_count + 1;
}

-- What a round may do to an event, given what the broker has answered.
pub data Advances (o : OutboxRelayOptions) (round : RelayRound) (outcomes : List PublishOutcome)
    : OutboxEvent → OutboxEvent → Type 0 where
  untouched : {e : OutboxEvent} → Advances o round outcomes e e
  delivered :
      {e : OutboxEvent}
      → is_due round.claim.now e ≡ true
      → round.claim.held e.id ≡ false
      → is_confirmed_in outcomes e.event_id ≡ true
      → Advances o round outcomes e (delivered_row round e)
  rescheduled :
      {e : OutboxEvent} (delay : ℕ)
      → is_due round.claim.now e ≡ true
      → round.claim.held e.id ≡ false
      → is_confirmed_in outcomes e.event_id ≡ false
      → delay ≤ o.retry_max_ms
      → Advances o round outcomes e (rescheduled_row round delay e)

scaled-le : (s : Sample) (ceiling : ℕ) → scaled s ceiling ≤ ceiling
unfolding scaled
scaled-le s ceiling = omega arith

backoff-le :
    (attempt_count base_ms max_ms : ℕ) (s : Sample)
    → calculate_full_jitter_backoff attempt_count base_ms max_ms s ≤ max_ms
unfolding calculate_full_jitter_backoff
backoff-le attempt_count base_ms max_ms s =
    omega (arith, scaled-le s (min max_ms (base_ms * 2 ^ min 30 (attempt_count - 1))))

finalization-about :
    (o : OutboxRelayOptions) (round : RelayRound) (outcomes : List PublishOutcome)
    (worker_id : Text) (c : ClaimedOutboxEvent) (e : OutboxEvent)
    → touches worker_id (finalization_of o round outcomes c) e
      ≡ is_held_by worker_id c.id c.event_id e
finalization-about o round outcomes worker_id c e =
    elim (Bool-cases (is_confirmed_in outcomes c.event_id)) [
      | inl yes' ↦ rw yes'
      | inr no' ↦ rw no'
    ]

module _ (o : OutboxRelayOptions) (round : RelayRound) (worker_id : Text) (rows : List OutboxEvent)
    (keyed : OneRowPerId rows) (outcomes : List PublishOutcome) where
  abbrev pub chosen : List OutboxEvent
  chosen = candidates round.claim o.batch_size rows

  abbrev pub leased : OutboxEvent → OutboxEvent
  leased e = if is_chosen chosen e then lease o.lease_duration_ms round.claim.now worker_id e else e

  abbrev pub claimed_events : List ClaimedOutboxEvent
  claimed_events = map to_claimed (filter (is_chosen chosen) (map leased rows))

  abbrev pub round_row : OutboxEvent → OutboxEvent
  round_row e =
      finalize_all round.finalized_at worker_id
        (map (finalization_of o round outcomes) claimed_events) (leased e)

  pub leased_keeps : (e : OutboxEvent) → ((leased e).id ≡ e.id) × ((leased e).event_id ≡ e.event_id)
  leased_keeps e = ground arith

  -- An event that is claimed comes from a row of the table.
  claimed_origin :
      (c : ClaimedOutboxEvent)
      → Memᴰ c claimed_events
      → (e : OutboxEvent) × Memᴰ e rows × (c ≡ to_claimed (leased e)) × (is_chosen chosen e ≡ true)
  claimed_origin c m =
      let (r, among, image) =
        member-map to_claimed (filter (is_chosen chosen) (map leased rows)) c m in
      let (known, passes) = member-filter (is_chosen chosen) (map leased rows) r among in
      let (e, n, from) = member-map leased rows r known in
      (
        e,
        n,
        image ∙ ap to_claimed from,
        is_chosen-same_id chosen e r
              (sym (ap (λ (x : OutboxEvent). x.id) from ∙ (leased_keeps e).0))
            ∙ passes,
      )

  pub same_row : (e f : OutboxEvent) → Memᴰ e rows → Memᴰ f rows → e.id ≡ f.id → e ≡ f
  same_row e f m n =
      All-member (λ g. e.id ≡ g.id → e ≡ g) rows f n
        (All-member (λ d. All (λ g. d.id ≡ g.id → d ≡ g) rows) rows e m keyed)

  pub unchosen_stays : (e : OutboxEvent) → is_chosen chosen e ≡ false → round_row e ≡ e
  unchosen_stays e h =
      let same : leased e ≡ e = rw h in
      rw same (
        untold_stays round.finalized_at worker_id (finalization_of o round outcomes)
          (finalization-about o round outcomes worker_id) claimed_events e
          (none_of_members _ claimed_events λ c m. elim (Bool-cases (text_eq e.id c.id)) [
            | inr different ↦ different
            | inl hit ↦ absurd (
                let (f, n, image, taken) = claimed_origin c m in
                let ids : e.id ≡ f.id =
                  eq_of_text_eq e.id c.id hit
                  ∙ (ap (λ (x : ClaimedOutboxEvent). x.id) image ∙ (leased_keeps f).0) in
                cc (is_chosen-same_id chosen e f ids))
          ]))

  pub claimed_member :
      (e : OutboxEvent)
      → Memᴰ e rows
      → is_chosen chosen e ≡ true
      → Memᴰ (to_claimed (leased e)) claimed_events
  claimed_member e m h =
      map-member to_claimed (filter (is_chosen chosen) (map leased rows)) (leased e) (
        filter-member (is_chosen chosen) (map leased rows) (leased e) (map-member leased rows e m)
          (is_chosen-same_id chosen (leased e) e (leased_keeps e).0 ∙ h))

  pub chosen-settled :
      (e : OutboxEvent)
      → Memᴰ e rows
      → is_chosen chosen e ≡ true
      → e.published_at ≡ none
      → let held = lease o.lease_duration_ms round.claim.now worker_id e in
        round_row e
        ≡ settled round.finalized_at (finalization_of o round outcomes (to_claimed held)) held
  chosen-settled e m h open' =
      let held : OutboxEvent = lease o.lease_duration_ms round.claim.now worker_id e in
      let as_held : leased e ≡ held = rw h in
      let only : (c : ClaimedOutboxEvent)
          → Memᴰ c claimed_events
          → text_eq held.id c.id ≡ true
          → c ≡ to_claimed held =
        λ c n hit.
          let (f, k, image, taken) = claimed_origin c n in
          let ids : e.id ≡ f.id =
            eq_of_text_eq e.id c.id hit
            ∙ (ap (λ (x : ClaimedOutboxEvent). x.id) image ∙ (leased_keeps f).0) in
          image ∙ ap to_claimed (ap leased (sym (same_row e f m k ids)) ∙ as_held) in
      let told : any (λ c. text_eq held.id c.id) claimed_events ≡ true =
        any_of_member _ claimed_events (to_claimed (leased e)) (claimed_member e m h)
          (rw as_held (text_eq_refl e.id)) in
      ap
        (finalize_all round.finalized_at worker_id
          (map (finalization_of o round outcomes) claimed_events))
        as_held
      ∙ told_settled round.finalized_at worker_id (finalization_of o round outcomes)
          (finalization-about o round outcomes worker_id) claimed_events held (to_claimed held)
          open' refl refl refl only told

  pub due_unpublished : (now : ℕ) (e : OutboxEvent) → is_due now e ≡ true → e.published_at ≡ none
  unfolding is_due
  due_unpublished now e h = ground arith

  pub round_row-Advances :
      (e : OutboxEvent) → Memᴰ e rows → Advances o round outcomes e (round_row e)
  round_row-Advances e m = elim (Bool-cases (is_chosen chosen e)) [
    | inr spared ↦ subst (Advances o round outcomes e) (sym (unchosen_stays e spared)) untouched
    | inl taken ↦
        let (c, ids, known, c_due, c_free) = chosen_due round.claim o.batch_size rows e taken in
        let same : c ≡ e = same_row c e known m ids in
        let due : is_due round.claim.now e ≡ true =
          subst (λ (x : OutboxEvent). is_due round.claim.now x ≡ true) same c_due in
        let free : round.claim.held e.id ≡ false =
          subst (λ (x : OutboxEvent). round.claim.held x.id ≡ false) same c_free in
        let becomes = chosen-settled e m taken (due_unpublished round.claim.now e due) in
        elim (Bool-cases (is_confirmed_in outcomes e.event_id)) [
          | inl confirmed' ↦
              subst (Advances o round outcomes e) (sym (becomes ∙ rw confirmed'))
                (delivered due free confirmed')
          | inr failed' ↦ subst (Advances o round outcomes e) (sym (becomes ∙ rw failed')) (
              rescheduled _ due free failed' (
                backoff-le (e.attempt_count + 1) o.retry_base_ms o.retry_max_ms (
                  round.draw (to_claimed (lease o.lease_duration_ms round.claim.now worker_id e)))))
        ]
  ]
