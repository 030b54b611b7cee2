-- ===== src/Adapter/Execute/Lost.antt =====
-- pkg/adapter/adapter.go: what is left of the events of queued blocks. The queue points to the response
-- whose events ExecuteTxs clears.
use go_execution_abci.Prelude.{
  ℕ, suc, ◌≡◌, refl, subst, sym, get_elem?, Option, List, [], ◌∷◌, ◌++◌, map,
}
use go_execution_abci.Prelude.Int.{ℤ}
use go_execution_abci.Compat.Types.{Bytes, Header, BlockId, Block}
use go_execution_abci.Adapter.Types.{
  Validator, TxResult, FinalizeResponse, Published, new_block, new_block_header, new_block_events,
  new_evidence, tx, validator_set_updates, StackedEvent, Adapter,
}
use go_execution_abci.Adapter.Env.{Env}
use go_execution_abci.Adapter.Events.Fire.{tx_events, update_events, block_events}
use go_execution_abci.Adapter.Events.Release.{events_at, queued_events}
use go_execution_abci.Adapter.Execute.{execute_txs}
use go_execution_abci.Adapter.Execute.Cleared.{Cleared, QueueCleared, execute_txs-Keeps}

-- None of the events of a list tells of an event that the application emitted for a block.
abbrev pub NoBlockEvents : List Published → Type 0
NoBlockEvents [] = Unit {0}
NoBlockEvents (new_block block id r ∷ es) = (r.events ≡ []) × NoBlockEvents es
NoBlockEvents (new_block_events h events n ∷ es) = (events ≡ []) × NoBlockEvents es
NoBlockEvents (new_block_header h ∷ es) = NoBlockEvents es
NoBlockEvents (new_evidence ev h ∷ es) = NoBlockEvents es
NoBlockEvents (tx h i t r ∷ es) = NoBlockEvents es
NoBlockEvents (validator_set_updates vs ∷ es) = NoBlockEvents es

append-NoBlockEvents :
    (es fs : List Published) → NoBlockEvents es → NoBlockEvents fs → NoBlockEvents (es ++ fs)
append-NoBlockEvents [] fs h k = k
append-NoBlockEvents (new_block block id r ∷ es) fs (e, h) k = (e, append-NoBlockEvents es fs h k)
append-NoBlockEvents (new_block_events i events n ∷ es) fs (e, h) k =
    (e, append-NoBlockEvents es fs h k)
append-NoBlockEvents (new_block_header i ∷ es) fs h k = append-NoBlockEvents es fs h k
append-NoBlockEvents (new_evidence ev i ∷ es) fs h k = append-NoBlockEvents es fs h k
append-NoBlockEvents (tx i j t r ∷ es) fs h k = append-NoBlockEvents es fs h k
append-NoBlockEvents (validator_set_updates vs ∷ es) fs h k = append-NoBlockEvents es fs h k

evidence-NoBlockEvents :
    (height : ℤ) (evs : List Bytes) → NoBlockEvents (map (λ ev. new_evidence ev height) evs)
evidence-NoBlockEvents height [] = tt
evidence-NoBlockEvents height (ev ∷ evs) = evidence-NoBlockEvents height evs

tx_events-NoBlockEvents :
    (height : ℤ) (i : ℕ) (txs : List Bytes) (results : List TxResult)
    → NoBlockEvents (tx_events height i txs results)
tx_events-NoBlockEvents height i [] results = tt
tx_events-NoBlockEvents height i (t ∷ txs) [] = tt
tx_events-NoBlockEvents height i (t ∷ txs) (r ∷ results) =
    tx_events-NoBlockEvents height (suc i) txs results

update_events-NoBlockEvents : (updates : List Validator) → NoBlockEvents (update_events updates)
update_events-NoBlockEvents [] = tt
update_events-NoBlockEvents (v ∷ vs) = tt

block_events-NoBlockEvents :
    (block : Block) (id : BlockId) (r : FinalizeResponse) (updates : List Validator)
    → r.events ≡ []
    → NoBlockEvents (block_events block id r updates)
block_events-NoBlockEvents block id r updates h =
    let rest =
      append-NoBlockEvents (map (λ ev. new_evidence ev block.header.height) block.evidence)
        (tx_events block.header.height 0 block.txs r.tx_results ++ update_events updates)
        (evidence-NoBlockEvents block.header.height block.evidence)
        (append-NoBlockEvents (tx_events block.header.height 0 block.txs r.tx_results)
          (update_events updates)
          (tx_events-NoBlockEvents block.header.height 0 block.txs r.tx_results)
          (update_events-NoBlockEvents updates)) in
    (h, (h, rest))

queued_events-NoBlockEvents :
    (heap : List FinalizeResponse) (es : List StackedEvent)
    → Cleared heap es
    → NoBlockEvents (queued_events heap es)
queued_events-NoBlockEvents heap [] h = tt
queued_events-NoBlockEvents heap (e ∷ es) ((r, at, empty), h) =
    append-NoBlockEvents (events_at (get_elem? heap e.abci_response) e) (queued_events heap es)
      (subst (λ o. NoBlockEvents (events_at o e)) (sym at)
        (block_events-NoBlockEvents e.block e.block_id r e.validator_updates empty))
      (queued_events-NoBlockEvents heap es h)

-- From an adapter whose queued blocks, if any, point to responses without block events, ExecuteTxs,
-- however it ends, comes to such an adapter again; and then what is there to publish for the queue
-- tells of no event that the application emitted for a block: these events are lost with the queue.
pub execute_txs_loses_events :
    {D A M : Type 0} (env : Env D A M) (context_header : Option Header) (txs : List Bytes)
    (block_height timestamp : ℕ) (a : Adapter D A M)
    → QueueCleared a
    → (a' : Adapter D A M) × (a' ≡ (execute_txs env context_header txs block_height timestamp a).1)
      × QueueCleared a'
      × NoBlockEvents (queued_events a'.heap a'.stacked_events)
execute_txs_loses_events env context_header txs block_height timestamp a h =
    let a' = (execute_txs env context_header txs block_height timestamp a).1 in
    let kept = (execute_txs-Keeps env context_header txs block_height timestamp).keeps a h in
    (a', refl, kept, queued_events-NoBlockEvents a'.heap a'.stacked_events kept)
