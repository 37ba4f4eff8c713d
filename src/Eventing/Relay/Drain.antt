-- ===== src/Eventing/Relay/Drain.antt =====
-- The rounds of the relay, one after another, as the worker runs them: with a broker that confirms
-- what it is sent they empty the outbox.
use settle_flow.Eventing.Relay.Claims.{candidates-member}
use settle_flow.Eventing.Relay.Rounds.{run_once_ready, claimed_in}
use settle_flow.Common.Text.{text_eq_refl, Text}
use settle_flow.Eventing.Relay.Service.{
  run_once, is_confirmed_in, RelayRound, PublishOutcome, OutboxRelayOptions, OutboxPublisher,
}
use settle_flow.Database.Eventing.{OutboxEvent}
use settle_flow.Database.{Database}
use settle_flow.Eventing.Relay.Repository.{
  is_due, is_chosen, is_before, claim_rows, candidates, ClaimedOutboxEvent, ClaimMoment,
}
use settle_flow.Common.Members.{
  count_if-map-le, count_if_witness, count_if-map-lt, any_of_member, All-member, take_pos,
  member-map, length_pos, length-sort, filter-member, All-intro,
}
use settle_flow.Common.{
  ltb, suc, Bool-cases, subst, none, length, inr, inl, count_if, is_some, ◌≤◌, ◌≡◌, ◌∷◌, ◌∙◌, ◌<◌,
  ◌&&◌, ℕ, true, sym, sort_by, refl, not, map, filter, false, arith, ap, [], List, Bool, All,
}
use settle_flow.Eventing.Relay.Rows.{
  chosen-settled, unchosen_stays, claimed_member, leased_keeps, same_row, round_row,
  round_row-Advances, OneRowPerId, Advances,
}
use mathlib.Core.List.{Memᴰ}

-- The rounds that one worker runs one after another.
abbrev pub run_rounds :
    OutboxRelayOptions → OutboxPublisher → Text → List RelayRound → Database → Database
run_rounds o publisher worker_id [] db = db
run_rounds o publisher worker_id (round ∷ rounds) db =
    run_rounds o publisher worker_id rounds (run_once o round publisher worker_id db).1

abbrev pub is_pending : OutboxEvent → Bool
is_pending e = not (is_some e.published_at)

-- Every event that is not published has fallen due.
abbrev pub AllDue : ℕ → List OutboxEvent → Type 0
AllDue t rows = All (λ e. is_pending e ≡ true → is_due t e ≡ true) rows

-- A broker that is ready and confirms each event of a batch.
abbrev pub Confirms : OutboxPublisher → Type 0
Confirms publisher =
    (publisher.ensure_ready ≡ true)
    × ((cs : List ClaimedOutboxEvent) (c : ClaimedOutboxEvent)
        → Memᴰ c cs
        → is_confirmed_in (publisher.publish_batch cs) c.event_id ≡ true)

-- A round after a moment that meets no row held by another transaction.
abbrev pub RunsFreely : ℕ → RelayRound → Type 0
RunsFreely t round = (t ≤ round.claim.now) × ((id : Text) → round.claim.held id ≡ false)

Advances-keeps :
    (o : OutboxRelayOptions) (round : RelayRound) (outcomes : List PublishOutcome)
    (e e' : OutboxEvent)
    → Advances o round outcomes e e'
    → (e'.id ≡ e.id) × (is_pending e ≡ false → is_pending e' ≡ false)
Advances-keeps o round outcomes e e' (Advances.untouched) = (refl, λ h. h)
Advances-keeps o round outcomes e e' (Advances.delivered due free yes') = (refl, λ h. refl)
Advances-keeps o round outcomes e e' (Advances.rescheduled delay due free no' bound) =
    (refl, λ h. h)

is_due-later : (t now : ℕ) (e : OutboxEvent) → t ≤ now → is_due t e ≡ true → is_due now e ≡ true
unfolding is_due
is_due-later t now e late h = ground arith

due_pending : (now : ℕ) (e : OutboxEvent) → is_due now e ≡ true → is_pending e ≡ true
unfolding is_due
due_pending now e h = ground arith

-- Where something is due that nobody holds, a claim takes something.
candidates_pos :
    (moment : ClaimMoment) (n : ℕ) (rows : List OutboxEvent) (e : OutboxEvent)
    → 0 < n
    → Memᴰ e rows
    → is_due moment.now e ≡ true
    → moment.held e.id ≡ false
    → (c : OutboxEvent) × Memᴰ c (candidates moment n rows)
unfolding candidates
candidates_pos moment n rows e pos' m due free =
    let test : OutboxEvent → Bool = λ x. is_due moment.now x && not (moment.held x.id) in
    let there : Memᴰ e (filter test rows) = filter-member test rows e m (ground arith) in
    take_pos n (sort_by is_before (filter test rows)) pos'
      (rw (length-sort is_before (filter test rows)) (length_pos (filter test rows) e there))

module _ (o : OutboxRelayOptions) (publisher : OutboxPublisher) (worker_id : Text) (t : ℕ)
    (room : 0 < o.batch_size) (confirms : Confirms publisher) where
  module _ (round : RelayRound) (free : RunsFreely t round) (db : Database)
      (keyed : OneRowPerId db.outbox_events) (all_due : AllDue t db.outbox_events) where
    abbrev outcomes : List PublishOutcome
    outcomes = publisher.publish_batch (claimed_in o round worker_id db)

    abbrev after : OutboxEvent → OutboxEvent
    after = round_row o round worker_id db.outbox_events keyed outcomes

    advance : (e : OutboxEvent) → Memᴰ e db.outbox_events → Advances o round outcomes e (after e)
    advance = round_row-Advances o round worker_id db.outbox_events keyed outcomes

    round-keyed : OneRowPerId (map after db.outbox_events)
    round-keyed = All-intro _ _ λ x m. All-intro _ _ λ y n ids.
        let (e, m', of_e) = member-map after db.outbox_events x m in
        let (f, n', of_f) = member-map after db.outbox_events y n in
        let same : e.id ≡ f.id =
          sym (
            ap (λ (z : OutboxEvent). z.id) of_e
            ∙ (Advances-keeps o round outcomes e (after e) (advance e m')).0)
          ∙ (ids
              ∙ (ap (λ (z : OutboxEvent). z.id) of_f
                  ∙ (Advances-keeps o round outcomes f (after f) (advance f n')).0)) in
        of_e
        ∙ (ap after (same_row o round worker_id db.outbox_events keyed outcomes e f m' n' same)
            ∙ sym of_f)

    -- A claimed event is published.
    chosen_published :
        (c : OutboxEvent)
        → Memᴰ c db.outbox_events
        → is_chosen (candidates round.claim o.batch_size db.outbox_events) c ≡ true
        → is_pending c ≡ true
        → is_pending (after c) ≡ false
    unfolding claimed_in claim_rows
    chosen_published c m taken pending' =
        let rows = db.outbox_events in
        let yes' : is_confirmed_in outcomes c.event_id ≡ true =
          subst (λ (x : Text). is_confirmed_in outcomes x ≡ true)
            (leased_keeps o round worker_id rows keyed outcomes c).1
            (confirms.1 (claimed_in o round worker_id db) _
              (claimed_member o round worker_id rows keyed outcomes c m taken)) in
        let none' : c.published_at ≡ none = ground arith in
        ap is_pending (chosen-settled o round worker_id rows keyed outcomes c m taken none')
        ∙ rw yes'

    -- A claimed row stays due or is published; all others stay as they are.
    round-AllDue : AllDue t (map after db.outbox_events)
    round-AllDue = All-intro _ _ λ x m still.
        let (e, n, image) = member-map after db.outbox_events x m in
        elim (Bool-cases (is_chosen (candidates round.claim o.batch_size db.outbox_events) e)) [
          | inr spared ↦
              let same : x ≡ e =
                image ∙ unchosen_stays o round worker_id db.outbox_events keyed outcomes e spared in
              rw same (
                All-member (λ y. is_pending y ≡ true → is_due t y ≡ true) db.outbox_events e n
                  all_due (ap is_pending (sym same) ∙ still))
          | inl taken ↦ absurd (elim (Bool-cases (is_pending e)) [
            | inl before ↦ cc (chosen_published e n taken before, ap is_pending image)
            | inr before ↦ cc (
              (Advances-keeps o round outcomes e (after e) (advance e n)).1 before,
              ap is_pending image,
            )
          ])
        ]

    -- Something is published where something was pending.
    round-fewer :
        0 < count_if is_pending db.outbox_events
        → count_if is_pending (map after db.outbox_events) < count_if is_pending db.outbox_events
    round-fewer some' =
        let rows = db.outbox_events in
        let (e, m, pending') = count_if_witness is_pending rows some' in
        let due : is_due round.claim.now e ≡ true =
          is_due-later t round.claim.now e free.0
            (All-member (λ y. is_pending y ≡ true → is_due t y ≡ true) rows e m all_due pending') in
        let (c, n) = candidates_pos round.claim o.batch_size rows e room m due (free.1 e.id) in
        let (known, c_due, c_free) = candidates-member round.claim o.batch_size rows c n in
        let c_pending : is_pending c ≡ true = due_pending round.claim.now c c_due in
        count_if-map-lt is_pending after rows c
          (λ x k. (Advances-keeps o round outcomes x (after x) (advance x k)).1) known c_pending
          (chosen_published c known
            (any_of_member _ (candidates round.claim o.batch_size rows) c n (text_eq_refl c.id))
            c_pending)

    round-spends :
        (n : ℕ)
        → count_if is_pending db.outbox_events ≤ suc n
        → count_if is_pending (map after db.outbox_events) ≤ n
    round-spends n enough =
        let no_more =
          count_if-map-le is_pending after db.outbox_events
            (λ x k. (Advances-keeps o round outcomes x (after x) (advance x k)).1) in
        elim (Bool-cases (ltb 0 (count_if is_pending db.outbox_events))) [
          | inl left ↦ ground (arith, round-fewer)
          | inr empty ↦ ground arith
        ]

  -- Where every event of the outbox that is not published has fallen due, no other transaction holds
  -- one, and the broker confirms what it is sent, as many rounds as there are such events publish
  -- them all, whatever the size of the batches, which may be one.
  pub drain_publishes :
      (rounds : List RelayRound) (db : Database)
      → All (RunsFreely t) rounds
      → OneRowPerId db.outbox_events
      → AllDue t db.outbox_events
      → count_if is_pending db.outbox_events ≤ length rounds
      → count_if is_pending (run_rounds o publisher worker_id rounds db).outbox_events ≡ 0
  drain_publishes [] db free keyed all_due enough = omega arith
  drain_publishes (round ∷ rounds) db free keyed all_due enough =
      let rows = map (after round free.0 db keyed all_due) db.outbox_events in
      let next : Database = record db { outbox_events = rows } in
      let ran : (run_once o round publisher worker_id db).1 ≡ next =
        run_once_ready o round publisher worker_id db keyed confirms.0 in
      let fewer : count_if is_pending rows ≤ length rounds =
        round-spends round free.0 db keyed all_due (length rounds) enough in
      subst
        (λ (d : Database).
          count_if is_pending (run_rounds o publisher worker_id rounds d).outbox_events ≡ 0)
        (sym ran)
        (drain_publishes rounds next free.1 (round-keyed round free.0 db keyed all_due)
          (round-AllDue round free.0 db keyed all_due) fewer)
