-- ===== src/Adapter/Execute/Cleared.antt =====
-- pkg/adapter/adapter.go: the events of the responses that queued blocks point to.
use go_execution_abci.Prelude.{
  ℕ, zero, suc, ◌<◌, ◌≡◌, refl, get_elem?, length, set, length-set, length-append, Option, some,
  List, [], ◌∷◌, ◌++◌, arith, leb,
}
use go_execution_abci.Prelude.Int.{to_i64, to_u64}
use go_execution_abci.Prelude.Exec.{
  or_err, ◌>>◌, pure, guard, Keeps, >>=-Keeps, if-Keeps, continue-keeps, reads-Keeps, step-Keeps,
}
use go_execution_abci.Compat.Types.{Bytes, Header, BlockId, Commit, CometHeader, Block}
use go_execution_abci.Adapter.Types.{
  rejected, no_header, part_set, Validator, CometState, FinalizeResponse, StackedEvent, Adapter,
}
use go_execution_abci.Compat.{to_abci_header}
use go_execution_abci.Adapter.Commit.{get_last_commit}
use go_execution_abci.Adapter.Env.{BlockRequest, Env}
use go_execution_abci.Adapter.Events.{stack_block_commit_events, fire_events, on_db, on_bus}
use go_execution_abci.Adapter.Execute.{
  on_app, on_mempool, block_request, next_state, proposer_address, header_or_err, ensure_index,
  publish_block, queue_block, record_block, commit_block, seal_block, finish_block, apply_response,
  execute_txs,
}

-- Each queued block points to a response without events of the block.
abbrev pub Cleared : List FinalizeResponse → List StackedEvent → Type 0
Cleared heap [] = Unit {0}
Cleared heap (e ∷ es) =
    ((r : FinalizeResponse) × (get_elem? heap e.abci_response ≡ some r) × (r.events ≡ []))
    × Cleared heap es

get_elem?-append :
    {A : Type 0} (xs ys : List A) (i : ℕ) (x : A)
    → get_elem? xs i ≡ some x
    → get_elem? (xs ++ ys) i ≡ some x
get_elem?-append [] ys i x h = cc
get_elem?-append (y ∷ xs) ys zero x h = h
get_elem?-append (y ∷ xs) ys (suc i) x h = get_elem?-append xs ys i x h

get_elem?-set_self :
    {A : Type 0} (xs : List A) (i : ℕ) (x : A) → i < length xs → get_elem? (set xs i x) i ≡ some x
get_elem?-set_self [] i x h = absurd (omega arith)
get_elem?-set_self (y ∷ xs) zero x h = refl
get_elem?-set_self (y ∷ xs) (suc i) x h = get_elem?-set_self xs i x (omega arith)

-- After a write of a response without events, a cell that had none still has none.
get_elem?-set :
    (heap : List FinalizeResponse) (i j : ℕ) (x r : FinalizeResponse)
    → x.events ≡ []
    → get_elem? heap j ≡ some r
    → r.events ≡ []
    → (r' : FinalizeResponse) × (get_elem? (set heap i x) j ≡ some r') × (r'.events ≡ [])
get_elem?-set [] i j x r hx h hr = cc
get_elem?-set (y ∷ heap) zero zero x r hx h hr = (x, refl, hx)
get_elem?-set (y ∷ heap) zero (suc j) x r hx h hr = (r, h, hr)
get_elem?-set (y ∷ heap) (suc i) zero x r hx h hr = (r, h, hr)
get_elem?-set (y ∷ heap) (suc i) (suc j) x r hx h hr = get_elem?-set heap i j x r hx h hr

append-Cleared :
    (heap more : List FinalizeResponse) (es : List StackedEvent)
    → Cleared heap es
    → Cleared (heap ++ more) es
append-Cleared heap more [] h = tt
append-Cleared heap more (e ∷ es) ((r, at, none'), h) =
    ((r, get_elem?-append heap more e.abci_response r at, none'), append-Cleared heap more es h)

set-Cleared :
    (heap : List FinalizeResponse) (p : ℕ) (x : FinalizeResponse) (es : List StackedEvent)
    → x.events ≡ []
    → Cleared heap es
    → Cleared (set heap p x) es
set-Cleared heap p x [] hx h = tt
set-Cleared heap p x (e ∷ es) hx ((r, at, none'), h) =
    (get_elem?-set heap p e.abci_response x r hx at none', set-Cleared heap p x es hx h)

snoc-Cleared :
    (heap : List FinalizeResponse) (es : List StackedEvent) (e : StackedEvent)
    (r : FinalizeResponse)
    → get_elem? heap e.abci_response ≡ some r
    → r.events ≡ []
    → Cleared heap es
    → Cleared heap (es ++ e ∷ [])
snoc-Cleared heap [] e r at none' h = ((r, at, none'), tt)
snoc-Cleared heap (x ∷ es) e r at none' (first, h) = (first, snoc-Cleared heap es e r at none' h)

module _ {D A M : Type 0} where
  abbrev pub QueueCleared : Adapter D A M → Type 0
  QueueCleared a = Cleared a.heap a.stacked_events

  -- The same, with a pointer that is in the heap.
  abbrev Pointed : ℕ → Adapter D A M → Type 0
  Pointed p a = QueueCleared a × (p < length a.heap)

module _ {D A M : Type 0} (env : Env D A M) where
  publish_block-Keeps :
      (p block_height : ℕ) (response : FinalizeResponse) (block : Block) (block_id : BlockId)
      (changes : List Validator)
      → Keeps (Pointed p) (publish_block env block_height response block block_id changes)
  unfolding publish_block
  publish_block-Keeps p block_height response block block_id changes =
      >>=-Keeps (Pointed p) (on_db (env.store.save_block_response block_height response))
        (λ _. on_bus (fire_events env.bus_accepts block block_id response changes))
        record { keeps = λ _ h. h } (λ _. record { keeps = λ _ h. h })

  queue_block-Keeps :
      (block_height p : ℕ) (response : FinalizeResponse) (block : Block) (block_id : BlockId)
      (changes : List Validator)
      → Keeps (Pointed p) (queue_block env block_height p response block block_id changes)
  unfolding queue_block stack_block_commit_events
  queue_block-Keeps block_height p response block block_id changes =
      let cleared : FinalizeResponse = record response { events = [] } in
      record {
        keeps = λ s (h, here). (
          snoc-Cleared (set s.heap p cleared) s.stacked_events
              record {
                block_id = block_id;
                block = block;
                abci_response = p;
                validator_updates = changes;
              }
              cleared (get_elem?-set_self s.heap p cleared here) refl
              (set-Cleared s.heap p cleared s.stacked_events refl h),
          omega (arith, length-set s.heap p cleared),
        );
      }

  record_block-Keeps :
      (header_height block_height p : ℕ) (response : FinalizeResponse) (block : Block)
      (block_id : BlockId) (changes : List Validator)
      → Keeps
          (Pointed p)
          (record_block env header_height block_height p response block block_id changes)
  unfolding record_block
  record_block-Keeps header_height block_height p response block block_id changes =
      if-Keeps (Pointed p) (env.is_publishable (to_i64 header_height))
        (publish_block env block_height response block block_id changes)
        (queue_block env block_height p response block block_id changes)
        (publish_block-Keeps p block_height response block block_id changes)
        (queue_block-Keeps block_height p response block block_id changes)

  pub commit_block-Keeps :
      (P : Adapter D A M → Type 0) (txs : List Bytes) (block_height : ℕ)
      (response : FinalizeResponse) (state : CometState)
      → ((s : Adapter D A M) (application : A) → P s → P (record s { application = application }))
      → ((s : Adapter D A M) (pool : M) → P s → P (record s { mempool = pool }))
      → Keeps P (commit_block env txs block_height response state)
  unfolding commit_block
  commit_block-Keeps P txs block_height response state app pool =
      >>=-Keeps P (on_mempool env env.flush)
        (λ _.
          on_app env env.commit
          >> on_mempool env (env.update (to_i64 block_height) txs response.tx_results state))
        record { keeps = λ s. pool s (env.flush s.mempool).1 }
        (λ _.
          >>=-Keeps P (on_app env env.commit)
            (λ _. on_mempool env (env.update (to_i64 block_height) txs response.tx_results state))
            record { keeps = λ s. app s (env.commit s.application).1 }
            (λ _. record {
              keeps = λ s.
                  pool s
                    (env.update (to_i64 block_height) txs response.tx_results state s.mempool).1;
            }))

  seal_block-Keeps :
      (s : CometState) (header' : Header) (abci_header : CometHeader) (last_commit : Commit)
      (txs : List Bytes) (block_height : ℕ) (response : FinalizeResponse) (p : ℕ)
      (changes : List Validator)
      → Keeps
          (Pointed p)
          (seal_block env s header' abci_header last_commit txs block_height response p changes)
  unfolding seal_block
  seal_block-Keeps s header' abci_header last_commit txs block_height response p changes =
      reads-Keeps (Pointed p) (λ _. proposer_address s.validators)
        λ proposer.
          let block : Block = env.make_block s (to_i64 block_height) txs last_commit proposer in
          reads-Keeps (Pointed p) (λ _. or_err (env.comet.make_part_set block) part_set)
            λ parts.
              let block_id : BlockId = record {
                hash = env.comet.header_hash abci_header;
                part_set_header = parts;
              } in
              step-Keeps (Pointed p) (on_db (env.store.save_block_id block_height block_id))
                (λ _ h. h)
                λ _.
                  record_block-Keeps header'.height block_height p response block block_id changes

  finish_block-Keeps :
      (s : CometState) (header' : Header) (abci_header : CometHeader) (last_commit : Commit)
      (txs : List Bytes) (block_height : ℕ) (response : FinalizeResponse) (p : ℕ)
      → Keeps
          (Pointed p)
          (finish_block env s header' abci_header last_commit txs block_height response p)
  unfolding finish_block
  finish_block-Keeps s header' abci_header last_commit txs block_height response p =
      reads-Keeps (Pointed p) (λ _. next_state env s response block_height)
        λ next.
          step-Keeps (Pointed p) (on_db (env.store.save_state (next.0))) (λ _ h. h)
            λ _.
              step-Keeps (Pointed p) (commit_block env txs block_height response (next.0))
                (commit_block-Keeps (Pointed p) txs block_height response (next.0) (λ _ _ h. h)
                  (λ _ _ h. h)).keeps
                λ _.
                  >>=-Keeps (Pointed p)
                    (seal_block env (next.0) header' abci_header last_commit txs block_height
                      response p (next.1))
                    (λ _. pure (response.app_hash, to_u64 next.0.consensus_params.block_max_bytes))
                    (seal_block-Keeps (next.0) header' abci_header last_commit txs block_height
                      response p (next.1))
                    λ _. record { keeps = λ _ h. h }

  apply_response-Keeps :
      (s : CometState) (header' : Header) (abci_header : CometHeader) (last_commit : Commit)
      (txs : List Bytes) (block_height : ℕ) (response : FinalizeResponse)
      → Keeps QueueCleared
          (apply_response env s header' abci_header last_commit txs block_height response)
  unfolding apply_response
  apply_response-Keeps s header' abci_header last_commit txs block_height response = record {
    keeps = λ a h.
        (continue-keeps (Pointed (length a.heap))
          (ensure_index (leb (length txs) (length response.tx_results)))
          (record a { heap = a.heap ++ response ∷ [] })
          (λ _.
            finish_block env s header' abci_header last_commit txs block_height response
              (length a.heap))
          (
            append-Cleared a.heap (response ∷ []) a.stacked_events h,
            omega (arith, length-append a.heap (response ∷ [])),
          )
          (λ _.
            finish_block-Keeps s header' abci_header last_commit txs block_height response
              (length a.heap))).0;
  }

  -- ExecuteTxs, however it ends, keeps this: every queued block points to a response whose block events
  -- are gone.
  pub execute_txs-Keeps :
      (context_header : Option Header) (txs : List Bytes) (block_height timestamp : ℕ)
      → Keeps QueueCleared (execute_txs env context_header txs block_height timestamp)
  unfolding execute_txs
  execute_txs-Keeps context_header txs block_height timestamp =
      reads-Keeps QueueCleared (λ a. env.store.load_state a.db)
        λ s.
          reads-Keeps QueueCleared (λ _. or_err context_header no_header)
            λ header'.
              reads-Keeps QueueCleared
                (λ a.
                  get_last_commit env.comet env.get_header (λ h. env.store.get_block_id h a.db)
                    block_height)
                λ last_commit.
                  reads-Keeps QueueCleared
                    (λ _. header_or_err (to_abci_header env.comet header' last_commit))
                    λ abci_header.
                      reads-Keeps QueueCleared (λ _. proposer_address s.validators)
                        λ proposer.
                          let request : BlockRequest =
                            block_request env abci_header txs block_height timestamp last_commit
                              proposer s in
                          step-Keeps QueueCleared (on_app env (env.process_proposal request))
                            (λ _ h. h)
                            λ accepted.
                              step-Keeps QueueCleared (guard accepted rejected) (λ _ h. h)
                                λ _.
                                  step-Keeps QueueCleared (on_app env (env.finalize_block request))
                                    (λ _ h. h)
                                    λ response.
                                      apply_response-Keeps s header' abci_header last_commit txs
                                        block_height response
