-- ===== src/Eventing/Relay/Finalizations.antt =====
-- What the loop of `finalize` does to one row (prisma-outbox-relay.repository.ts).
use mathlib.Core.List.{Memᴰ}
use settle_flow.Common.Text.{text_eq_refl, text_eq, Text}
use settle_flow.Database.Eventing.{OutboxEvent}
use settle_flow.Eventing.Relay.Repository.{
  settled, touches, retry, published, is_held_by, finalize_rows, finalize_row, OutboxFinalization,
  ClaimedOutboxEvent,
}
use settle_flow.Common.{
  ◌≡◌, ◌∷◌, ◌∙◌, ◌+◌, ℕ, true, some, refl, none, map, inr, inl, false, count_if, arith, ap, any, [],
  List, Bool-cases,
}

-- The loop, as it passes one row.
abbrev pub finalize_all : ℕ → Text → List OutboxFinalization → OutboxEvent → OutboxEvent
finalize_all now worker_id [] e = e
finalize_all now worker_id (f ∷ fs) e =
    finalize_all now worker_id fs (finalize_row now worker_id f e)

pub map-map {ℓ} :
    {A : Type ℓ} (f g : A → A) (xs : List A) → map g (map f xs) ≡ map (λ x. g (f x)) xs
map-map f g [] = refl
map-map f g (x ∷ xs) = ap (λ l. g (f x) ∷ l) (map-map f g xs)

pub map_same {ℓ} : {A : Type ℓ} (xs : List A) → xs ≡ map (λ x. x) xs
map_same [] = refl
map_same (x ∷ xs) = ap (λ l. x ∷ l) (map_same xs)

pub finalize_rows-map :
    (now : ℕ) (worker_id : Text) (fs : List OutboxFinalization) (n : ℕ) (rows : List OutboxEvent)
    → (finalize_rows now worker_id fs n rows).1 ≡ map (finalize_all now worker_id fs) rows
unfolding finalize_rows
finalize_rows-map now worker_id [] n rows = map_same rows
finalize_rows-map now worker_id (f ∷ fs) n rows =
    finalize_rows-map now worker_id fs (n + count_if (touches worker_id f) rows)
      (map (finalize_row now worker_id f) rows)
    ∙ map-map (finalize_row now worker_id f) (finalize_all now worker_id fs) rows

touches_locked :
    (worker_id : Text) (f : OutboxFinalization) (e : OutboxEvent)
    → e.locked_by ≡ none
    → touches worker_id f e ≡ false
touches_locked worker_id (published id event_id) e h = ground arith
touches_locked worker_id (retry id event_id d) e h = ground arith

-- A row that no worker holds stays as it is.
unlocked_stays :
    (now : ℕ) (worker_id : Text) (fs : List OutboxFinalization) (e : OutboxEvent)
    → e.locked_by ≡ none
    → finalize_all now worker_id fs e ≡ e
unlocked_stays now worker_id [] e h = refl
unlocked_stays now worker_id (f ∷ fs) e h =
    let same : finalize_row now worker_id f e ≡ e = rw (touches_locked worker_id f e h) in
    ap (finalize_all now worker_id fs) same ∙ unlocked_stays now worker_id fs e h

settled_unlocked :
    (now : ℕ) (f : OutboxFinalization) (e : OutboxEvent) → (settled now f e).locked_by ≡ none
settled_unlocked now (published _ _) e = refl
settled_unlocked now (retry _ _ _) e = refl

module _ (now : ℕ) (worker_id : Text) (finalization : ClaimedOutboxEvent → OutboxFinalization)
    (about : (c : ClaimedOutboxEvent) (e : OutboxEvent)
      → touches worker_id (finalization c) e ≡ is_held_by worker_id c.id c.event_id e) where
  held_on :
      (mine : ClaimedOutboxEvent) (e : OutboxEvent)
      → e.published_at ≡ none
      → e.locked_by ≡ some worker_id
      → mine.id ≡ e.id
      → mine.event_id ≡ e.event_id
      → touches worker_id (finalization mine) e ≡ true
  held_on mine e open' held same_id same_event =
      about mine e
      ∙ rw (same_id, same_event)
          (ground (arith, text_eq_refl e.id, text_eq_refl e.event_id, text_eq_refl worker_id))

  -- A row of which no finalization tells stays as it is.
  pub untold_stays :
      (cs : List ClaimedOutboxEvent) (e : OutboxEvent)
      → any (λ c. text_eq e.id c.id) cs ≡ false
      → finalize_all now worker_id (map finalization cs) e ≡ e
  untold_stays [] e h = refl
  untold_stays (c ∷ cs) e h =
      let miss : touches worker_id (finalization c) e ≡ false = ground (arith, about c e) in
      let same : finalize_row now worker_id (finalization c) e ≡ e = rw miss in
      ap (finalize_all now worker_id (map finalization cs)) same ∙ untold_stays cs e (ground arith)

  -- A row that the worker holds is settled by the finalization of its event, and once only.
  pub told_settled :
      (cs : List ClaimedOutboxEvent) (e : OutboxEvent) (mine : ClaimedOutboxEvent)
      → e.published_at ≡ none
      → e.locked_by ≡ some worker_id
      → mine.id ≡ e.id
      → mine.event_id ≡ e.event_id
      → ((c : ClaimedOutboxEvent) → Memᴰ c cs → text_eq e.id c.id ≡ true → c ≡ mine)
      → any (λ c. text_eq e.id c.id) cs ≡ true
      → finalize_all now worker_id (map finalization cs) e ≡ settled now (finalization mine) e
  told_settled [] e mine open' held same_id same_event only h = cc
  told_settled (c ∷ cs) e mine open' held same_id same_event only h =
      elim (Bool-cases (text_eq e.id c.id)) [
        | inl hit ↦
            let whole : c ≡ mine = only c (Memᴰ.head refl) hit in
            let on : touches worker_id (finalization mine) e ≡ true =
              held_on mine e open' held same_id same_event in
            let done : finalize_row now worker_id (finalization c) e
                ≡ settled now (finalization mine) e =
              rw (whole, on) in
            ap (finalize_all now worker_id (map finalization cs)) done
            ∙ unlocked_stays now worker_id (map finalization cs) (settled now (finalization mine) e)
                (settled_unlocked now (finalization mine) e)
        | inr miss ↦
            let off : touches worker_id (finalization c) e ≡ false = ground (arith, about c e) in
            let same : finalize_row now worker_id (finalization c) e ≡ e = rw off in
            ap (finalize_all now worker_id (map finalization cs)) same
            ∙ told_settled cs e mine open' held same_id same_event (λ d m. only d (Memᴰ.tail m))
                (ground arith)
      ]
