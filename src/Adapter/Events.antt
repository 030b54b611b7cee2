-- ===== src/Adapter/Events.antt =====
-- pkg/adapter/adapter.go: the events of a block, and the queue of those that wait for their block to be
-- final. The event bus refuses an event by a test of what it has published.
pub mod Fire
pub mod Queue
pub mod Release
use go_execution_abci.Prelude.{
  ℕ, zero, suc, ◌+◌, ◌%◌, ◌^◌, Bool, true, false, ◌&&◌, if◌then◌else◌, get_elem?, length, take,
  drop, Option, none, some, List, [], ◌∷◌, ◌++◌,
}
use go_execution_abci.Prelude.Int.{ℤ, leb_ℤ, to_u64, to_i64}
use go_execution_abci.Prelude.Exec.{
  Outcome, ok, err, panic, Exec, continue, ◌>>=◌, ◌>>◌, pure, reads, gets, modify,
}
use go_execution_abci.Compat.Types.{Bytes, BlockId, Block}
use go_execution_abci.Adapter.Types.{
  Error, bus, Validator, TxResult, FinalizeResponse, Store, Published, new_block, new_block_header,
  new_block_events, new_evidence, tx, validator_set_updates, StackedEvent, Adapter,
}

module _ (accepts : List Published → Published → Bool) where
  abbrev pub publish : Published → Exec Error (List Published) (Unit {0})
  publish event log = if accepts log event then (ok tt, log ++ event ∷ []) else (err bus, log)

  unfoldable pub fire_evidence : ℤ → List Bytes → Exec Error (List Published) (Unit {0})
  fire_evidence height [] = pure tt
  fire_evidence height (ev ∷ rest) = do publish (new_evidence ev height); fire_evidence height rest

  -- Fewer results than transactions panic.
  unfoldable pub fire_txs :
      ℤ → ℕ → List Bytes → List TxResult → Exec Error (List Published) (Unit {0})
  fire_txs height i [] results = pure tt
  fire_txs height i (t ∷ txs) [] = reads (λ _. panic)
  fire_txs height i (t ∷ txs) (result ∷ results) = do
    publish (tx height (i % 2 ^ 32) t result)
    fire_txs height (suc i) txs results

  unfoldable pub fire_updates : List Validator → Exec Error (List Published) (Unit {0})
  fire_updates [] = pure tt
  fire_updates (v ∷ vs) = publish (validator_set_updates (v ∷ vs))

  unfoldable pub fire_events :
      Block → BlockId → FinalizeResponse → List Validator → Exec Error (List Published) (Unit {0})
  unfolding fire_evidence fire_txs fire_updates
  fire_events block block_id response updates = do
    publish (new_block block block_id response)
    publish (new_block_header block.header)
    publish (new_block_events block.header.height response.events (length block.txs))
    fire_evidence block.header.height block.evidence
    fire_txs block.header.height 0 block.txs response.tx_results
    fire_updates updates

-- The place of the last event of the queue that may be published, counted from `i`.
unfoldable pub max_pos_released : (ℤ → Bool) → ℤ → List StackedEvent → ℕ → Option ℕ → Option ℕ
max_pos_released publishable persisted_height [] i found = found
max_pos_released publishable persisted_height (v ∷ vs) i found =
    let height = v.block.header.height in
    max_pos_released publishable persisted_height vs (suc i)
      (if leb_ℤ height persisted_height && publishable height then some i else found)

module _ {D A M : Type 0} where
  -- A call of the store, and one of the event bus.
  abbrev pub on_db : {X : Type 0} → Exec Error D X → Exec Error (Adapter D A M) X
  on_db call s = let (r, d) = call s.db in (r, record s { db = d })

  abbrev pub on_bus : {X : Type 0} → Exec Error (List Published) X → Exec Error (Adapter D A M) X
  on_bus call s = let (r, log) = call s.published in (r, record s { published = log })

  -- The response that a pointer points to.
  abbrev pub pointed : ℕ → Adapter D A M → Outcome Error FinalizeResponse
  pointed p s = elim (get_elem? s.heap p) [ none ↦ panic | some response ↦ ok response ]

  unfoldable pub stack_block_commit_events :
      BlockId → Block → ℕ → List Validator → Adapter D A M → Adapter D A M
  stack_block_commit_events block_id block response updates s = record s {
    stacked_events =
        s.stacked_events
        ++ record {
          block_id = block_id;
          block = block;
          abci_response = response;
          validator_updates = updates;
        }
          ∷ [];
  }

  abbrev pub drop_released : ℕ → Adapter D A M → Adapter D A M
  drop_released n s = record s { stacked_events = drop n s.stacked_events }

module _ {D A M : Type 0} (store : Store D) (accepts : List Published → Published → Bool) where
  -- A round of the loop: the events are stored with the block's response, and published.
  unfoldable pub publish_event : StackedEvent → Exec Error (Adapter D A M) (Unit {0})
  unfolding to_u64
  publish_event event = do
    stored ← reads (λ s. store.get_block_response (to_u64 event.block.header.height) s.db)
    response ← reads (pointed event.abci_response)
    on_db (
        store.save_block_response (to_u64 event.block.header.height)
          (record stored { events = response.events }))
    on_bus (fire_events accepts event.block event.block_id response event.validator_updates)

  -- The loop from round i on; `cancelled` says before which rounds the context is done. The result is
  -- maxPosReleased as the loop leaves it.
  unfoldable pub publish_events :
      (ℕ → Bool) → ℕ → List StackedEvent → ℕ → Exec Error (Adapter D A M) ℕ
  unfolding publish_event
  publish_events cancelled max_pos [] i = pure max_pos
  publish_events cancelled max_pos (event ∷ rest) i = do
    elim (cancelled i) [
      | true ↦ pure i
      | false ↦ publish_event event >> publish_events cancelled max_pos rest (suc i)
    ]

  unfoldable pub publish_released : (ℕ → Bool) → Option ℕ → Exec Error (Adapter D A M) (Unit {0})
  unfolding publish_events
  publish_released cancelled none = pure tt
  publish_released cancelled (some max_pos) = do
    stack ← gets (λ s. s.stacked_events)
    released ← publish_events cancelled max_pos (take (suc max_pos) stack) 0
    modify (drop_released (suc released))

  unfoldable pub publish_queued_block_events :
      (ℤ → Bool) → (ℕ → Bool) → ℤ → Exec Error (Adapter D A M) (Unit {0})
  unfolding publish_released max_pos_released
  publish_queued_block_events publishable cancelled persisted_height = do
    stack ← gets (λ s. s.stacked_events)
    publish_released cancelled (max_pos_released publishable persisted_height stack 0 none)

  unfoldable pub set_final : (ℤ → Bool) → (ℕ → Bool) → ℕ → Exec Error (Adapter D A M) (Unit {0})
  unfolding publish_queued_block_events to_i64
  set_final publishable cancelled block_height =
      publish_queued_block_events publishable cancelled (to_i64 block_height)
