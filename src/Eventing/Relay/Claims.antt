-- ===== src/Eventing/Relay/Claims.antt =====
-- What a claim of `claimPending` takes (prisma-outbox-relay.repository.ts): rows that are due, and
-- none that stands under another's lease.
use settle_flow.Common.Action.{ok}
use settle_flow.Database.{Database}
use settle_flow.Common.Members.{
  none_of_members, All-intro, member-take, member-sort, any_witness, member-filter, member-map,
}
use settle_flow.Common.Text.{text_eq, eq_of_text_eq, Text}
use settle_flow.Database.Eventing.{OutboxEvent}
use settle_flow.Eventing.Relay.Repository.{
  to_claimed, claim_pending, ClaimedOutboxEvent, lease, is_due, is_chosen, is_before, claim_rows,
  candidates, ClaimPendingInput, ClaimMoment,
}
use settle_flow.Common.{
  map, any, All, ◌≡◌, ◌∙◌, ◌<◌, ◌+◌, ◌&&◌, ℕ, true, sym, subst, not, inr, inl, filter, false, arith,
  ap, List, Bool-cases, Bool,
}
use mathlib.Core.List.{Memᴰ}

pub candidates-member :
    (moment : ClaimMoment) (n : ℕ) (rows : List OutboxEvent) (c : OutboxEvent)
    → Memᴰ c (candidates moment n rows)
    → Memᴰ c rows × (is_due moment.now c ≡ true) × (moment.held c.id ≡ false)
unfolding candidates
candidates-member moment n rows c m =
    let test : OutboxEvent → Bool = λ e. is_due moment.now e && not (moment.held e.id) in
    let (known, passes) =
      member-filter test rows c
        (member-sort is_before c (filter test rows) (member-take n c _ m)) in
    (known, ground arith, ground arith)

-- A row that is chosen has the identifier of a row that is due and that nobody holds.
pub chosen_due :
    (moment : ClaimMoment) (n : ℕ) (rows : List OutboxEvent) (e : OutboxEvent)
    → is_chosen (candidates moment n rows) e ≡ true
    → (c : OutboxEvent) × (c.id ≡ e.id)
      × Memᴰ c rows
      × (is_due moment.now c ≡ true)
      × (moment.held c.id ≡ false)
chosen_due moment n rows e h =
    let (c, m, same) = any_witness (λ c. text_eq c.id e.id) (candidates moment n rows) h in
    let (known, due, free) = candidates-member moment n rows c m in
    (c, eq_of_text_eq c.id e.id same, known, due, free)

pub is_chosen-same_id :
    (chosen : List OutboxEvent) (e f : OutboxEvent)
    → e.id ≡ f.id
    → is_chosen chosen e ≡ is_chosen chosen f
is_chosen-same_id chosen e f same = rw same

-- A row under a lease that still runs is not due.
leased_not_due :
    (duration claimed_at now : ℕ) (worker_id : Text) (e : OutboxEvent)
    → now < claimed_at + duration
    → is_due now (lease duration claimed_at worker_id e) ≡ false
unfolding is_due
leased_not_due duration claimed_at now worker_id e early = ground arith

module _ (duration : ℕ) (first : ClaimMoment) (input : ClaimPendingInput) (rows : List OutboxEvent)
    (second : ClaimMoment) (batch_size : ℕ) (early : second.now < first.now + duration) where
  abbrev rechosen : List OutboxEvent
  rechosen = candidates second batch_size (claim_rows duration first input rows)

  rechosen_unchosen :
      (e : OutboxEvent)
      → is_chosen rechosen e ≡ true
      → is_chosen (candidates first input.batch_size rows) e ≡ false
  unfolding claim_rows
  rechosen_unchosen e h =
      let (c, same, known, due, free) = chosen_due second batch_size _ e h in
      let (r, in_rows, image) = member-map _ rows c known in
      elim (Bool-cases (is_chosen (candidates first input.batch_size rows) r)) [
        | inl taken ↦ absurd (
            let leased : c ≡ lease duration first.now input.worker_id r = image ∙ rw taken in
            let late : is_due second.now c ≡ false =
              rw leased (leased_not_due duration first.now second.now input.worker_id r early) in
            cc)
        | inr spared ↦
            let unchanged : c ≡ r = image ∙ rw spared in
            subst (λ b. b ≡ false)
              (is_chosen-same_id (candidates first input.batch_size rows) r e
                (ap (λ (x : OutboxEvent). x.id) (sym unchanged) ∙ same))
              spared
      ]

-- The events that a claim returns, as a list of their rows.
claimed_chosen :
    (duration : ℕ) (moment : ClaimMoment) (input : ClaimPendingInput) (db : Database)
    (cs : List ClaimedOutboxEvent) (x : ClaimedOutboxEvent)
    → (claim_pending duration moment input db).0 ≡ ok cs
    → Memᴰ x cs
    → (e : OutboxEvent) × (x.id ≡ e.id)
      × (is_chosen (candidates moment input.batch_size db.outbox_events) e ≡ true)
unfolding claim_pending
claimed_chosen duration moment input db cs x returned m =
    let chosen = candidates moment input.batch_size db.outbox_events in
    let rows = claim_rows duration moment input db.outbox_events in
    let listed : cs ≡ map to_claimed (filter (is_chosen chosen) rows) = cc in
    let (e, among, image) =
      member-map to_claimed (filter (is_chosen chosen) rows) x (subst (λ l. Memᴰ x l) listed m) in
    let (known, passes) = member-filter (is_chosen chosen) rows e among in
    (e, ap (λ (y : ClaimedOutboxEvent). y.id) image, passes)

-- While the lease of a claim runs, no other claim, by any worker, returns an event that the first
-- one returned.
pub claim_excludes :
    (duration : ℕ) (first second : ClaimMoment) (input other : ClaimPendingInput) (db : Database)
    (cs ds : List ClaimedOutboxEvent)
    → second.now < first.now + duration
    → (claim_pending duration first input db).0 ≡ ok cs
    → (claim_pending duration second other (claim_pending duration first input db).1).0 ≡ ok ds
    → All (λ d. any (λ c. text_eq c.id d.id) cs ≡ false) ds
unfolding claim_pending
claim_excludes duration first second input other db cs ds early one two = All-intro _ ds λ d m.
    none_of_members _ cs λ c n. elim (Bool-cases (text_eq c.id d.id)) [
      | inr different ↦ different
      | inl same ↦ absurd (
          let (e, of_d, again) =
            claimed_chosen duration second other (claim_pending duration first input db).1 ds d two
              m in
          let (f, of_c, taken) = claimed_chosen duration first input db cs c one n in
          let ids : f.id ≡ e.id = sym of_c ∙ (eq_of_text_eq c.id d.id same ∙ of_d) in
          let spared =
            rechosen_unchosen duration first input db.outbox_events second other.batch_size early e
              again in
          cc (is_chosen-same_id (candidates first input.batch_size db.outbox_events) f e ids))
    ]
