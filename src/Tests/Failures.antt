-- ===== src/Tests/Failures.antt =====
-- An application that fails to commit the first block.
use go_execution_abci.Prelude.{arith, ℕ, ◌≡◌, refl, [], ◌∷◌, nat_eq}
use go_execution_abci.Prelude.Map.{Map}
use go_execution_abci.Prelude.Int.{to_i64, pos}
use go_execution_abci.Prelude.Exec.{ok, err}
use go_execution_abci.Adapter.Types.{app, CometState}
use go_execution_abci.Adapter.Env.{Env}
use go_execution_abci.Adapter.Store.{store, save_state}
use go_execution_abci.Adapter.Commit.{empty_commit}
use go_execution_abci.Adapter.Execute.{next_state, finish_block}
use go_execution_abci.Adapter.Execute.Failure.{finish_block-commit_fails}
use go_execution_abci.Compat.Types.{CometHeader}
use go_execution_abci.Tests.Stores.{
  Key, Stored, key_eq, memory_store, memory_store-IsStore, empty_state,
}
use go_execution_abci.Tests.Chains.{comet, env, response, the_header, fresh, no_parts}

abbrev failing : Env (Map Key Stored) ℕ ℕ
failing = record env { commit = λ a. (err app, a) }

abbrev next : CometState
next = record empty_state { app_hash = 4 ∷ []; last_block_height = pos 1 }

follows : next_state failing empty_state response 1 ≡ ok (next, [])
unfolding next_state to_i64
follows = refl

abbrev comet_header : CometHeader
comet_header = record {
  block_version = 11;
  app_version = 1;
  chain_id = "chain";
  height = pos 1;
  time = 1000;
  last_block_id = no_parts;
  last_commit_hash = [];
  data_hash = [];
  validators_hash = [];
  next_validators_hash = [];
  consensus_hash = [];
  app_hash = [];
  last_results_hash = [];
  evidence_hash = [];
  proposer_address = 7 ∷ [];
}

abbrev saved : Map Key Stored
saved = (memory_store.save_state next []).1

saves : memory_store.save_state next [] ≡ (ok tt, saved)
unfolding store save_state
saves = refl

finish_block-commit_fails_example :
    (finish_block failing empty_state the_header comet_header
        (empty_commit comet)
        ((1 ∷ []) ∷ [])
        1
        response
        0
        fresh
      ≡ (err app, record fresh { db = saved; mempool = 0; application = 0 }))
    × (memory_store.load_state saved ≡ ok next)
    × (next.last_block_height ≡ to_i64 1)
    × (next.last_validators ≡ empty_state.validators)
finish_block-commit_fails_example =
    finish_block-commit_fails failing memory_store-IsStore empty_state next the_header comet_header
      (empty_commit comet) ((1 ∷ []) ∷ []) 1 response 0 [] fresh saved 0 0 app (omega arith)
      (omega arith) follows saves refl refl
