-- ===== src/Tests/Chains.antt =====
-- A chain of one validator: its first block is executed, and a block that waits is released.
use go_execution_abci.Prelude.{
  ℕ, suc, ◌≡◌, refl, true, false, none, some, List, [], ◌∷◌, arith, nat_eq, string_eq,
}
use go_execution_abci.Prelude.Map
use go_execution_abci.Prelude.Map.{Map}
use go_execution_abci.Prelude.Int.{ℤ, pos, to_i64, to_u64}
use go_execution_abci.Prelude.Exec.{Outcome, ok, err}
use go_execution_abci.Compat.{signature_payload}
use go_execution_abci.Compat.Types.{
  Bytes, Header, SignedHeader, BlockId, Commit, CommitSig, Block, Comet,
}
use go_execution_abci.Adapter.Types.{
  Error, missing, Validator, ValidatorSet, CometState, FinalizeResponse, Adapter,
}
use go_execution_abci.Adapter.Env.{BlockRequest, InitResponse, AppGenesis, Env}
use go_execution_abci.Adapter.Commit.{get_last_commit}
use go_execution_abci.Adapter.Commit.Signed.{signed_vote, get_last_commit-signature_payload}
use go_execution_abci.Adapter.Execute.{execute_txs, init_chain}
use go_execution_abci.Adapter.Execute.Transition.{Holds, Answers, execute_txs_lem}
use go_execution_abci.Adapter.Execute.Genesis.{IsInitial, init_request, init_chain_lem}
use go_execution_abci.Adapter.Store.{
  store, load_state, save_state, save_block_id, save_block_response,
}
use go_execution_abci.Adapter.Execute.Cleared.{QueueCleared}
use go_execution_abci.Adapter.Execute.Lost.{NoBlockEvents, execute_txs_loses_events}
use go_execution_abci.Adapter.Events.Release.{queued_events}
use go_execution_abci.Tests.Stores.{Key, Stored, key_eq, memory_store, memory_store-IsStore}

abbrev pub no_parts : BlockId
no_parts = record { hash = []; part_set_header = record { total = 0; hash = [] } }

abbrev pub comet : Comet
comet = record {
  block_protocol = 11;
  empty_block_id = no_parts;
  commit_hash = λ c. 1 ∷ [];
  header_hash = λ h. 2 ∷ h.app_hash;
  evidence_hash = [];
  make_part_set = λ b. some record { total = 1; hash = 3 ∷ [] };
  block_size = λ b. pos 100;
  vote_sign_bytes = λ chain vote. vote.timestamp ∷ vote.validator_address;
}

abbrev pub the_header : Header
the_header = record {
  app_version = 1;
  height = 1;
  time = 1000;
  data_hash = [];
  consensus_hash = [];
  app_hash = 9 ∷ [];
  last_results_hash = [];
  proposer_address = 7 ∷ [];
  validator_hash = 6 ∷ [];
  chain_id = "chain";
}

abbrev pub sequencer : Validator
sequencer = record {
  address = 7 ∷ [];
  pub_key = 8 ∷ [];
  voting_power = pos 1;
  proposer_priority = pos 0;
}

abbrev pub one_validator : ValidatorSet
one_validator = record { validators = sequencer ∷ []; proposer = some sequencer }

abbrev pub genesis : AppGenesis
genesis = record {
  genesis_time = 500;
  chain_id = "chain";
  initial_height = pos 1;
  validators = sequencer ∷ [];
  consensus_params = record { block_max_bytes = pos 1000; others = [] };
  app_state = [];
}

abbrev pub response : FinalizeResponse
response = record {
  events = (5 ∷ []) ∷ [];
  tx_results = record { code = 0; content = [] } ∷ [];
  validator_updates = [];
  consensus_param_updates = none;
  app_hash = 4 ∷ [];
}

abbrev pub block_with : CometState → ℤ → List Bytes → Commit → Bytes → Block
block_with s h txs commit proposer = record {
  header = record {
    block_version = 11;
    app_version = 1;
    chain_id = "chain";
    height = h;
    time = 1000;
    last_block_id = commit.block_id;
    last_commit_hash = [];
    data_hash = [];
    validators_hash = [];
    next_validators_hash = [];
    consensus_hash = [];
    app_hash = s.app_hash;
    last_results_hash = [];
    evidence_hash = [];
    proposer_address = proposer;
  };
  txs = txs;
  evidence = [];
  last_commit = commit;
}

-- The filter holds every block back.
abbrev pub env : Env (Map Key Stored) ℕ ℕ
env = record {
  store = memory_store;
  comet = comet;
  get_header = λ n. err missing;
  height = ok 0;
  process_proposal = λ r a. (ok true, suc a);
  finalize_block = λ r a. (ok response, suc a);
  commit = λ a. (ok tt, suc a);
  prepare_proposal = λ r a. (ok r.txs, a);
  init_chain =
      λ r a. (ok record { consensus_params = none; validators = []; app_hash = 4 ∷ [] }, suc a);
  flush = λ m. (ok tt, m);
  update = λ h txs results s m. (ok tt, suc m);
  reap = λ limit m. [];
  validator_updates = λ updates. some [];
  new_validator_set = λ vals. one_validator;
  update_with_change_set = λ set changes. some set;
  increment_proposer_priority = λ set. ok set;
  validators_hash = λ set. [];
  update_params = λ p update. p;
  validate_basic = λ p. true;
  validate_update = λ p update h. true;
  make_block = block_with;
  is_publishable = λ h. false;
  bus_accepts = λ log e. true;
}

abbrev pub fresh : Adapter (Map Key Stored) ℕ ℕ
fresh = record {
  db = [];
  application = 0;
  mempool = 0;
  published = [];
  heap = [];
  stacked_events = [];
}

abbrev pub begun : Outcome Error (Bytes × ℕ) × Adapter (Map Key Stored) ℕ ℕ
begun = init_chain env (some genesis) 500 1 "chain" fresh

begins : begun ≡ (ok (4 ∷ [], 1000), begun.1)
unfolding init_chain store save_state Map.put
begins = refl

abbrev pub executed : Outcome Error (Bytes × ℕ) × Adapter (Map Key Stored) ℕ ℕ
executed = execute_txs env (some the_header) ((1 ∷ []) ∷ []) 1 1000 begun.1

executes : executed ≡ (ok (4 ∷ [], 1000), executed.1)
unfolding execute_txs init_chain store load_state save_state save_block_id save_block_response
    Map.get Map.put Map.remove Map.restrict
executes = refl

init_chain_lem_example :
    (g : AppGenesis) × (response : InitResponse) × (s : CometState) × (some genesis ≡ some g)
    × (g.genesis_time ≡ 500)
    × (g.chain_id ≡ "chain")
    × (1 ≡ to_u64 g.initial_height)
    × (env.init_chain (init_request env g 500 1 "chain") fresh.application
        ≡ (ok response, begun.1.application))
    × (memory_store.load_state begun.1.db ≡ ok s)
    × IsInitial env g "chain" response s
    × (4 ∷ [] ≡ response.app_hash)
    × (1000 ≡ to_u64 s.consensus_params.block_max_bytes)
init_chain_lem_example =
    init_chain_lem env memory_store-IsStore (some genesis) 500 1 "chain" fresh begun.1 (4 ∷ []) 1000
      begins

execute_txs_lem_example :
    (s : CometState) × (header : Header) × (request : BlockRequest) × (r : FinalizeResponse)
    × (held : Holds env s header 1 r executed.1.db) × (memory_store.load_state begun.1.db ≡ ok s)
    × (some the_header ≡ some header)
    × (request.txs ≡ (1 ∷ []) ∷ [])
    × (request.height ≡ to_i64 1)
    × (request.time ≡ 1000)
    × (request.next_validators_hash ≡ env.validators_hash s.next_validators)
    × Answers env request begun.1.application r
    × (held.id.hash ≡ request.hash)
    × (4 ∷ [] ≡ r.app_hash)
    × (1000 ≡ to_u64 held.next.consensus_params.block_max_bytes)
    × (held.next.last_block_height ≡ to_i64 1)
    × (held.next.app_hash ≡ 4 ∷ [])
    × (held.next.last_validators ≡ s.validators)
    × (env.increment_proposer_priority held.next.validators ≡ ok held.next.next_validators)
execute_txs_lem_example =
    execute_txs_lem env memory_store-IsStore (some the_header) ((1 ∷ []) ∷ []) 1 1000 begun.1
      executed.1 (4 ∷ []) 1000 (omega arith) (omega arith) executes

begun_cleared : QueueCleared begun.1
unfolding init_chain store save_state Map.put
begun_cleared = tt

execute_txs_loses_events_example :
    (a' : Adapter (Map Key Stored) ℕ ℕ) × (a' ≡ executed.1)
    × QueueCleared a'
    × NoBlockEvents (queued_events a'.heap a'.stacked_events)
execute_txs_loses_events_example =
    execute_txs_loses_events env (some the_header) ((1 ∷ []) ∷ []) 1 1000 begun.1 begun_cleared

abbrev signed : SignedHeader
signed = record { header = the_header; signature = 12 ∷ [] }

abbrev headers : ℕ → Outcome Error SignedHeader
headers n = ok signed

abbrev ids : ℕ → Outcome Error BlockId
ids n = ok no_parts

get_last_commit-signature_payload_example :
    (commit : Commit) × (sig : CommitSig) × (get_last_commit comet headers ids 2 ≡ ok commit)
    × (commit.signatures ≡ sig ∷ [])
    × (sig.signature ≡ 12 ∷ [])
    × (commit.block_id ≡ no_parts)
    × (signature_payload comet (ok no_parts) the_header
        ≡ ok (comet.vote_sign_bytes "chain" (signed_vote commit sig)))
get_last_commit-signature_payload_example =
    get_last_commit-signature_payload comet headers ids 1 signed no_parts (omega arith) refl refl
