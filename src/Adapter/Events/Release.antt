-- ===== src/Adapter/Events/Release.antt =====
-- pkg/adapter/adapter.go: what publishQueuedBlockEvents publishes, and what it keeps.
use go_execution_abci.Prelude.{
  ℕ, suc, ◌+◌, ◌≤◌, ◌≡◌, ◌⊎◌, inl, inr, refl, ap, subst, ◌∙◌, sym, Bool, true, false, get_elem?,
  length, take, drop, Option, none, some, List, [], ◌∷◌, ◌++◌, arith, Bool-cases, ◌==◌, nat_eq,
}
use mathlib.Core.List.{append_assoc, append-nil}
use go_execution_abci.Prelude.Int.{ℤ, to_u64}
use go_execution_abci.Prelude.Exec.{ok}
use go_execution_abci.Adapter.Types.{FinalizeResponse, Store, Published, StackedEvent, Adapter}
use go_execution_abci.Adapter.Store.RoundTrip.{IsStore}
use go_execution_abci.Adapter.Events.{
  max_pos_released, publish_event, publish_events, publish_released, publish_queued_block_events,
}
use go_execution_abci.Adapter.Events.Fire.{block_events, publish_all_ok, fire_events-publish_all}
use go_execution_abci.Adapter.Events.Queue.{
  releasable, Waiting, Split, max_pos_released_lem, take_split, drop_split,
}

-- A database whose writes succeed.
pub record IsAvailable {D : Type 0} (store : Store D) : Type 0 where
  pub lawful : IsStore store
  pub saves :
      (height : ℕ) (response : FinalizeResponse) (d : D)
      → (d' : D) × (store.save_block_response height response d ≡ (ok tt, d'))

-- The events of queued blocks, with the responses that their pointers point to.
abbrev pub events_at : Option FinalizeResponse → StackedEvent → List Published
events_at none e = []
events_at (some r) e = block_events e.block e.block_id r e.validator_updates

abbrev pub queued_events : List FinalizeResponse → List StackedEvent → List Published
queued_events heap [] = []
queued_events heap (e ∷ es) = events_at (get_elem? heap e.abci_response) e ++ queued_events heap es

two_parts : (log es fs : List Published) → (log ++ (es ++ [])) ++ fs ≡ log ++ (es ++ fs)
two_parts log es fs = rw (append-nil es) (append_assoc log es fs)

module _ {D : Type 0} (store : Store D) where
  -- What the publication of an event reads is there: its response, with a result for each transaction,
  -- and the stored response of its height.
  pub record Ready (heap : List FinalizeResponse) (d : D) (e : StackedEvent) : Type 0 where
    pub response : FinalizeResponse
    pub points : get_elem? heap e.abci_response ≡ some response
    pub enough_results : length e.block.txs ≤ length response.tx_results
    pub stored : FinalizeResponse
    pub is_stored : store.get_block_response (to_u64 e.block.header.height) d ≡ ok stored

  abbrev pub AllReady : List FinalizeResponse → D → List StackedEvent → Type 0
  AllReady heap d [] = Unit {0}
  AllReady heap d (e ∷ es) = Ready heap d e × AllReady heap d es

  Ready-save :
      {heap : List FinalizeResponse} {d d' : D} {e : StackedEvent} (height : ℕ)
      (r : FinalizeResponse)
      → IsStore store
      → store.save_block_response height r d ≡ (ok tt, d')
      → Ready heap d e
      → Ready heap d' e
  Ready-save {d = d} {d' = d'} {e = e} height r law saved ready =
      let at : ℕ = to_u64 e.block.header.height in
      elim (Bool-cases (at == height)) [
        | inl same ↦ record {
          response = ready.response;
          points = ready.points;
          enough_results = ready.enough_results;
          stored = r;
          is_stored =
              rw ((nat_eq.beq_iff at height).0 same)
                (law.get-save_block_response d d' height r saved);
        }
        | inr other ↦ record {
          response = ready.response;
          points = ready.points;
          enough_results = ready.enough_results;
          stored = ready.stored;
          is_stored =
              (law.save_block_response-frame d d' height r at saved).2 (λ eq. ground arith)
              ∙ ready.is_stored;
        }
      ]

  AllReady-save :
      (heap : List FinalizeResponse) (d d' : D) (es : List StackedEvent) (height : ℕ)
      (r : FinalizeResponse)
      → IsStore store
      → store.save_block_response height r d ≡ (ok tt, d')
      → AllReady heap d es
      → AllReady heap d' es
  AllReady-save heap d d' [] height r law saved ready = tt
  AllReady-save heap d d' (e ∷ es) height r law saved (first, ready) =
      (Ready-save height r law saved first, AllReady-save heap d d' es height r law saved ready)

  AllReady-front :
      (heap : List FinalizeResponse) (d : D) (a : List StackedEvent) (e : StackedEvent)
      (b : List StackedEvent)
      → AllReady heap d (a ++ e ∷ b)
      → AllReady heap d (a ++ e ∷ [])
  AllReady-front heap d [] e b (first, ready) = (first, tt)
  AllReady-front heap d (x ∷ a) e b (first, ready) = (first, AllReady-front heap d a e b ready)

  module _ {A M : Type 0} (accepts : List Published → Published → Bool)
      (open_bus : (l : List Published) (e : Published) → accepts l e ≡ true)
      (available : IsAvailable store) where
    publish_event_lem :
        (s : Adapter D A M) (e : StackedEvent) (ready : Ready s.heap s.db e)
        → (d' : D) × (store.save_block_response
              (to_u64 e.block.header.height)
              (record ready.stored { events = ready.response.events })
              s.db
            ≡ (ok tt, d'))
          × (publish_event store accepts e s ≡ (
            ok tt,
            record s { db = d'; published = s.published ++ queued_events s.heap (e ∷ []) },
          ))
    unfolding publish_event
    publish_event_lem s e ready =
        let (d', saved) =
          available.saves (to_u64 e.block.header.height)
            (record ready.stored { events = ready.response.events }) s.db in
        (
          d',
          saved,
          rw
              (
                ready.is_stored,
                ready.points,
                saved,
                fire_events-publish_all accepts e.block e.block_id ready.response
                    e.validator_updates ready.enough_results s.published,
                publish_all_ok accepts
                    (block_events e.block e.block_id ready.response e.validator_updates) s.published
                    open_bus,
                append-nil (block_events e.block e.block_id ready.response e.validator_updates),
              )
              refl,
        )

    publish_events_lem :
        (es : List StackedEvent) (max_pos i : ℕ) (s : Adapter D A M)
        → AllReady s.heap s.db es
        → (d' : D) × (publish_events store accepts (λ _. false) max_pos es i s ≡ (
          ok max_pos,
          record s { db = d'; published = s.published ++ queued_events s.heap es },
        ))
    unfolding publish_events
    publish_events_lem [] max_pos i s ready =
        (s.db, ap (λ l. (ok max_pos, record s { published = l })) (sym (append-nil s.published)))
    publish_events_lem (e ∷ es) max_pos i s (first, ready) =
        let (d, saved, published) = publish_event_lem s e first in
        let next : Adapter D A M = record s {
          db = d;
          published = s.published ++ queued_events s.heap (e ∷ []);
        } in
        let (d', rest) = publish_events_lem es max_pos (suc i) next (
          AllReady-save s.heap s.db d es (to_u64 e.block.header.height)
            (record first.stored { events = first.response.events }) available.lawful saved
            ready) in
        (
          d',
          rw published (
              rest
              ∙ ap (λ l. (ok max_pos, record s { db = d'; published = l }))
                  (two_parts s.published (events_at (get_elem? s.heap e.abci_response) e)
                    (queued_events s.heap es))),
        )

    publish_released_lem :
        (n : ℕ) (s : Adapter D A M) (front waiting : List StackedEvent) (d' : D)
        (log : List Published)
        → take (suc n) s.stacked_events ≡ front
        → drop (suc n) s.stacked_events ≡ waiting
        → publish_events store accepts (λ _. false) n front 0 s
          ≡ (ok n, record s { db = d'; published = log })
        → publish_released store accepts (λ _. false) (some n) s
          ≡ (ok tt, record s { db = d'; published = log; stacked_events = waiting })
    unfolding publish_released
    publish_released_lem n s front waiting d' log taken left published =
        rw (taken, published, left) refl

    -- With an event bus that refuses nothing, a database whose writes succeed, and queued events whose
    -- responses are there, publishing up to a final height without a cancellation succeeds. If no queued
    -- event may be published, it changes nothing; otherwise it publishes the events of the queue's blocks
    -- up to the last that may be published, block after block in the order of the queue, and keeps
    -- exactly the blocks behind, none of which may be published.
    pub publish_queued_block_events_lem :
        (publishable : ℤ → Bool) (height : ℤ) (s : Adapter D A M)
        → AllReady s.heap s.db s.stacked_events
        → ((publish_queued_block_events store accepts publishable (λ _. false) height s
              ≡ (ok tt, s))
            × Waiting publishable height s.stacked_events)
          ⊎ ((cut : Split publishable height s.stacked_events) × (d' : D)
              × (publish_queued_block_events store accepts publishable (λ _. false) height s ≡ (
                ok tt,
                record s {
                  db = d';
                  published = s.published ++ queued_events s.heap (cut.before ++ cut.event ∷ []);
                  stacked_events = cut.waiting;
                },
              )))
    unfolding publish_queued_block_events
    publish_queued_block_events_lem publishable height s ready =
        elim (max_pos_released_lem publishable height s.stacked_events 0 none) [
          | inl (nothing, waits) ↦ inl (rw nothing refl, waits)
          | inr (cut, last) ↦
              let at_last : max_pos_released publishable height s.stacked_events 0 none
                  ≡ some (length cut.before) =
                last ∙ ap some {x = 0 + length cut.before} {y = length cut.before} (omega arith) in
              let front : List StackedEvent = cut.before ++ cut.event ∷ [] in
              let taken : take (suc (length cut.before)) s.stacked_events ≡ front =
                ap (take (suc (length cut.before))) cut.split
                ∙ take_split cut.before cut.event cut.waiting in
              let left : drop (suc (length cut.before)) s.stacked_events ≡ cut.waiting =
                ap (drop (suc (length cut.before))) cut.split
                ∙ drop_split cut.before cut.event cut.waiting in
              let (d', published) = publish_events_lem front (length cut.before) 0 s (
                AllReady-front s.heap s.db cut.before cut.event cut.waiting
                  (subst (AllReady s.heap s.db) cut.split ready)) in
              inr (
                cut,
                d',
                rw at_last (
                    publish_released_lem (length cut.before) s front cut.waiting d'
                      (s.published ++ queued_events s.heap front) taken left published),
              )
        ]

module _ {D A M : Type 0} (store : Store D) (accepts : List Published → Published → Bool) where
  publish_released_cancelled :
      (cancelled : ℕ → Bool) (n : ℕ) (s : Adapter D A M) (e : StackedEvent)
      (rest : List StackedEvent)
      → s.stacked_events ≡ e ∷ rest
      → cancelled 0 ≡ true
      → publish_released store accepts cancelled (some n) s
        ≡ (ok tt, record s { stacked_events = rest })
  unfolding publish_released publish_events
  publish_released_cancelled cancelled n s e rest queue done = rw (queue, done) refl

  -- If the first block of the queue may be published but the context is done before the first round,
  -- this block is dropped from the queue though nothing is published.
  pub publish_queued_block_events-cancelled :
      (publishable : ℤ → Bool) (cancelled : ℕ → Bool) (height : ℤ) (s : Adapter D A M)
      (e : StackedEvent) (rest : List StackedEvent)
      → s.stacked_events ≡ e ∷ rest
      → releasable publishable height e ≡ true
      → cancelled 0 ≡ true
      → publish_queued_block_events store accepts publishable cancelled height s
        ≡ (ok tt, record s { stacked_events = rest })
  unfolding publish_queued_block_events
  publish_queued_block_events-cancelled publishable cancelled height s e rest queue free done =
      elim (max_pos_released_lem publishable height s.stacked_events 0 none) [
        | inl (nothing, waits) ↦
            let (held, tail) = subst (Waiting publishable height) queue waits in cc
        | inr (cut, last) ↦
            rw last
              (publish_released_cancelled cancelled (0 + length cut.before) s e rest queue done)
      ]
