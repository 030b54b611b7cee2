-- ===== src/Adapter/Execute.antt =====
-- pkg/adapter/adapter.go: InitChain, ExecuteTxs and GetTxs. The application, the mempool and what CometBFT
-- computes with sets of validators and parameters are those of `Env`.
pub mod Genesis
pub mod Stores
pub mod Transition
pub mod Cleared
pub mod Lost
pub mod Failure
use go_execution_abci.Prelude.{
  ℕ, zero, suc, ◌+◌, ◌%◌, String, Bool, true, false, not, leb, ◌==◌, nat_eq, string_eq,
  if◌then◌else◌, length, set, Option, none, some, List, [], ◌∷◌, ◌++◌,
}
use go_execution_abci.Prelude.Int.{ℤ, pos, to_u64, to_i64, u64_mod}
use go_execution_abci.Prelude.Exec.{
  Outcome, ok, err, panic, Exec, then_ok, or_err, ensure, continue, ◌>>=◌, ◌>>◌, pure, reads, gets,
  modify, guard,
}
use go_execution_abci.Compat.{CompatError, to_abci_header}
use go_execution_abci.Compat.Types.{
  Bytes, Header, SignedHeader, BlockId, Commit, CometHeader, Block, PartSetHeader, Comet,
}
use go_execution_abci.Adapter.Types.{
  Error, rejected, no_header, updates, change_set, params, part_set, header, no_genesis,
  time_mismatch, chain_id_mismatch, height_mismatch, not_one_validator, mempool, Validator,
  ValidatorSet, ConsensusParams, CometState, TxResult, ValidatorUpdate, FinalizeResponse, Store,
  Published, Adapter,
}
use go_execution_abci.Adapter.Env.{
  BlockRequest, PrepareRequest, InitRequest, InitResponse, AppGenesis, Env,
}
use go_execution_abci.Adapter.Commit.{commit_info, get_last_commit}
use go_execution_abci.Adapter.Events.{fire_events, stack_block_commit_events, on_db, on_bus}

abbrev pub header_or_err : Outcome CompatError CometHeader → Outcome Error CometHeader
header_or_err (ok h) = ok h
header_or_err (err e) = err header
header_or_err panic = panic

-- The address of the proposer, which may be nil.
abbrev pub proposer_address : ValidatorSet → Outcome Error Bytes
proposer_address set = elim set.proposer [ none ↦ panic | some v ↦ ok v.address ]

abbrev pub ensure_index : Bool → Outcome Error (Unit {0})
ensure_index true = ok tt
ensure_index false = panic

module _ {D A M : Type 0} (env : Env D A M) where
  -- The set for the next heights, and the height from which it holds. The response's updates are
  -- applied to a copy of the next validators.
  unfoldable pub changed_validators :
      CometState → List Validator → ℕ → Outcome Error (ValidatorSet × ℤ)
  unfolding to_i64
  changed_validators s [] block_height = ok (s.next_validators, s.last_height_validators_changed)
  changed_validators s (v ∷ vs) block_height =
      then_ok (or_err (env.update_with_change_set s.next_validators (v ∷ vs)) change_set)
        λ set. ok (set, to_i64 ((block_height + 2) % u64_mod))

  unfoldable pub changed_params :
      CometState → Option Bytes → ℕ → Outcome Error (ConsensusParams × ℤ)
  unfolding to_i64
  changed_params s none block_height =
      ok (s.consensus_params, s.last_height_consensus_params_changed)
  changed_params s (some update) block_height =
      let next = env.update_params s.consensus_params update in
      then_ok (ensure (env.validate_basic next) params) λ _.
        then_ok
          (ensure (env.validate_update s.consensus_params update (to_i64 block_height)) params)
          λ _. ok (next, to_i64 ((block_height + 1) % u64_mod))

  -- The state that ExecuteTxs saves, with the updates of the validators.
  unfoldable pub next_state :
      CometState → FinalizeResponse → ℕ → Outcome Error (CometState × List Validator)
  unfolding changed_validators changed_params to_i64
  next_state s response block_height =
      then_ok (or_err (env.validator_updates response.validator_updates) updates) λ changes.
        then_ok (changed_validators s changes block_height) λ changed.
          then_ok (env.increment_proposer_priority changed.0) λ set.
            then_ok (changed_params s response.consensus_param_updates block_height) λ new_params.
              then_ok (env.increment_proposer_priority set) λ next. ok (
                record s {
                  app_hash = response.app_hash;
                  last_block_height = to_i64 block_height;
                  consensus_params = new_params.0;
                  last_height_consensus_params_changed = new_params.1;
                  last_validators = s.validators;
                  validators = set;
                  next_validators = next;
                  last_height_validators_changed = changed.1;
                },
                changes,
              )

  abbrev pub on_app : {X : Type 0} → Exec Error A X → Exec Error (Adapter D A M) X
  on_app call s =
      let (r, application) = call s.application in (r, record s { application = application })

  abbrev pub on_mempool : {X : Type 0} → Exec Error M X → Exec Error (Adapter D A M) X
  on_mempool call s = let (r, pool) = call s.mempool in (r, record s { mempool = pool })

  -- What is asked of the application, before and after it accepts the proposal.
  unfoldable pub block_request :
      CometHeader → List Bytes → ℕ → ℕ → Commit → Bytes → CometState → BlockRequest
  unfolding to_i64 commit_info
  block_request abci_header txs block_height timestamp last_commit proposer s = record {
    hash = env.comet.header_hash abci_header;
    height = to_i64 block_height;
    time = timestamp;
    txs = txs;
    last_commit = commit_info last_commit;
    proposer_address = proposer;
    next_validators_hash = env.validators_hash s.next_validators;
  }

  -- The response is put into a new cell of the heap.
  abbrev pub allocate : FinalizeResponse → Exec Error (Adapter D A M) ℕ
  allocate response s = (ok (length s.heap), record s { heap = s.heap ++ response ∷ [] })

  -- Sets the events of the response that a pointer points to to nil.
  abbrev pub clear_events : ℕ → FinalizeResponse → Adapter D A M → Adapter D A M
  clear_events p response s = record s { heap = set s.heap p (record response { events = [] }) }

  -- A block that may be published at once.
  unfoldable pub publish_block :
      ℕ
      → FinalizeResponse
      → Block
      → BlockId
      → List Validator
      → Exec Error (Adapter D A M) (Unit {0})
  publish_block block_height response block block_id changes = do
    on_db (env.store.save_block_response block_height response)
    on_bus (fire_events env.bus_accepts block block_id response changes)

  -- A block whose events wait; the response is stored without the block's events.
  unfoldable pub queue_block :
      ℕ
      → ℕ
      → FinalizeResponse
      → Block
      → BlockId
      → List Validator
      → Exec Error (Adapter D A M) (Unit {0})
  unfolding stack_block_commit_events
  queue_block block_height p response block block_id changes = do
    modify (stack_block_commit_events block_id block p changes)
    modify (clear_events p response)
    on_db (env.store.save_block_response block_height (record response { events = [] }))

  -- The end of ExecuteTxs.
  unfoldable pub record_block :
      ℕ
      → ℕ
      → ℕ
      → FinalizeResponse
      → Block
      → BlockId
      → List Validator
      → Exec Error (Adapter D A M) (Unit {0})
  unfolding publish_block queue_block to_i64
  record_block header_height block_height p response block block_id changes =
      if env.is_publishable (to_i64 header_height)
      then publish_block block_height response block block_id changes
      else queue_block block_height p response block block_id changes

  -- The mempool is locked and the application commits.
  unfoldable pub commit_block :
      List Bytes → ℕ → FinalizeResponse → CometState → Exec Error (Adapter D A M) (Unit {0})
  unfolding to_i64
  commit_block txs block_height response s = do
    on_mempool env.flush
    on_app env.commit
    on_mempool (env.update (to_i64 block_height) txs response.tx_results s)

  -- The block is made of the new state, its id is stored, and it is recorded.
  unfoldable pub seal_block :
      CometState
      → Header
      → CometHeader
      → Commit
      → List Bytes
      → ℕ
      → FinalizeResponse
      → ℕ
      → List Validator
      → Exec Error (Adapter D A M) (Unit {0})
  unfolding record_block to_i64
  seal_block s header' abci_header last_commit txs block_height response p changes = do
    proposer ← reads (λ _. proposer_address s.validators)
    let block = env.make_block s (to_i64 block_height) txs last_commit proposer
    parts ← reads (λ _. or_err (env.comet.make_part_set block) part_set)
    let block_id : BlockId = record {
      hash = env.comet.header_hash abci_header;
      part_set_header = parts;
    }
    on_db (env.store.save_block_id block_height block_id)
    record_block header'.height block_height p response block block_id changes

  -- The state is saved, the application commits, and the block is recorded.
  unfoldable pub finish_block :
      CometState
      → Header
      → CometHeader
      → Commit
      → List Bytes
      → ℕ
      → FinalizeResponse
      → ℕ
      → Exec Error (Adapter D A M) (Bytes × ℕ)
  unfolding next_state commit_block seal_block to_u64
  finish_block s header' abci_header last_commit txs block_height response p = do
    next ← reads (λ _. next_state s response block_height)
    on_db (env.store.save_state (next.0))
    commit_block txs block_height response (next.0)
    seal_block (next.0) header' abci_header last_commit txs block_height response p (next.1)
    pure (response.app_hash, to_u64 next.0.consensus_params.block_max_bytes)

  -- ExecuteTxs from the answer of FinalizeBlock on; each transaction's result is logged, so a result
  -- that is missing panics.
  unfoldable pub apply_response :
      CometState
      → Header
      → CometHeader
      → Commit
      → List Bytes
      → ℕ
      → FinalizeResponse
      → Exec Error (Adapter D A M) (Bytes × ℕ)
  unfolding finish_block
  apply_response s header' abci_header last_commit txs block_height response = do
    p ← allocate response
    reads (λ _. ensure_index (leb (length txs) (length response.tx_results)))
    finish_block s header' abci_header last_commit txs block_height response p

  -- The header is that of the context.
  unfoldable pub execute_txs :
      Option Header → List Bytes → ℕ → ℕ → Exec Error (Adapter D A M) (Bytes × ℕ)
  unfolding block_request apply_response get_last_commit to_abci_header
  execute_txs context_header txs block_height timestamp = do
    s ← reads (λ a. env.store.load_state a.db)
    header' ← reads (λ _. or_err context_header no_header)
    last_commit ← reads (λ a.
        get_last_commit env.comet env.get_header (λ h. env.store.get_block_id h a.db) block_height)
    abci_header ← reads (λ _. header_or_err (to_abci_header env.comet header' last_commit))
    proposer ← reads (λ _. proposer_address s.validators)
    let request = block_request abci_header txs block_height timestamp last_commit proposer s
    accepted ← on_app (env.process_proposal request)
    guard accepted rejected
    response ← on_app (env.finalize_block request)
    apply_response s header' abci_header last_commit txs block_height response

  -- The checks of InitChain.
  unfoldable pub check_genesis : Option AppGenesis → ℕ → ℕ → String → Outcome Error AppGenesis
  unfolding to_u64
  check_genesis none genesis_time initial_height chain_id = err no_genesis
  check_genesis (some g) genesis_time initial_height chain_id =
      if not (g.genesis_time == genesis_time)
      then err time_mismatch
      else if not (g.chain_id == chain_id)
      then err chain_id_mismatch
      else if not (initial_height == to_u64 g.initial_height)
      then err height_mismatch
      else ok g

  unfoldable pub initial_state : AppGenesis → ℕ → String → InitResponse → Outcome Error CometState
  unfolding to_i64
  initial_state g initial_height chain_id response =
      then_ok (or_err (env.validator_updates response.validators) updates) λ vals.
        let set = env.new_validator_set vals in
        then_ok (ensure (length set.validators == 1) not_one_validator) λ _.
          then_ok (env.increment_proposer_priority (env.new_validator_set set.validators)) λ next.
            ok record {
              chain_id = chain_id;
              last_block_height = pos 0;
              validators = env.new_validator_set set.validators;
              next_validators = next;
              last_validators = env.new_validator_set set.validators;
              last_height_validators_changed = to_i64 initial_height;
              consensus_params = elim response.consensus_params [
                | none ↦ g.consensus_params
                | some p ↦ p
              ];
              last_height_consensus_params_changed = to_i64 initial_height;
              app_hash = response.app_hash;
            }

  unfoldable pub init_chain :
      Option AppGenesis → ℕ → ℕ → String → Exec Error (Adapter D A M) (Bytes × ℕ)
  unfolding check_genesis initial_state to_i64 to_u64
  init_chain app_genesis genesis_time initial_height chain_id = do
    g ← reads (λ _. check_genesis app_genesis genesis_time initial_height chain_id)
    response ← on_app (
        env.init_chain record {
          time = genesis_time;
          chain_id = chain_id;
          consensus_params = g.consensus_params;
          validators = env.new_validator_set g.validators;
          app_state = g.app_state;
          initial_height = to_i64 initial_height;
        })
    s ← reads (λ _. initial_state g initial_height chain_id response)
    on_db (env.store.save_state s)
    pure (response.app_hash, to_u64 s.consensus_params.block_max_bytes)

  -- The mempool may not be there yet.
  unfoldable pub get_txs : Bool → Exec Error (Adapter D A M) (List Bytes)
  unfolding to_i64
  get_txs has_mempool = do
    s ← reads (λ a. env.store.load_state a.db)
    guard has_mempool mempool
    reaped ← gets (λ a. env.reap s.consensus_params.block_max_bytes a.mempool)
    height ← reads (λ _. env.height)
    proposer ← reads (λ _. proposer_address s.validators)
    on_app (
        env.prepare_proposal record {
          txs = reaped;
          max_tx_bytes = s.consensus_params.block_max_bytes;
          height = to_i64 ((height + 1) % u64_mod);
          next_validators_hash = env.validators_hash s.next_validators;
          proposer_address = proposer;
        })
