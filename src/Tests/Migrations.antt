-- ===== src/Tests/Migrations.antt =====
-- Migrations of a chain whose keys are texts.
use go_execution_abci.Prelude.{
  ℕ, ◌≤◌, ◌≡◌, refl, String, none, some, List, [], ◌∷◌, arith, ◌==◌, nat_eq, string_eq, replicate,
}
use go_execution_abci.Prelude.Exec.{ok, panic}
use go_execution_abci.Manager.Types.{
  Keys, Validator, Sequencer, RollkitMigration, ValidatorUpdate, MsgMigrateToRollkit, State,
}
use go_execution_abci.Manager.Updates.{contains, tm_cons_public_key}
use go_execution_abci.Manager.Keeper.{migrate_over}
use go_execution_abci.Manager.Steps.{migrate_over_panics}
use go_execution_abci.Manager.Answers.{IsConverting, IsSmooth}
use go_execution_abci.Manager.Progress.{blocks, blocks_complete}

abbrev texts : Keys
texts = record {
  Key = String;
  PubKey = String;
  CmtKey = String;
  get_cached_value = λ k. some k;
  to_cmt_proto_public_key = λ k. ok k;
  equal = λ a b. a == b;
  key_string = λ k. k;
  cmt_key_string = λ k. k;
  zero_update = λ k. ok k;
  cmt_cons_public_key = λ k. ok k;
}

texts_convert : IsConverting texts
unfolding tm_cons_public_key
texts_convert = record {
  removed = λ k. (k, refl);
  added = λ k. (k, refl);
  current = λ k. (k, refl);
}

abbrev validator : String → Validator String
validator key = record { moniker = "validator"; consensus_pubkey = key }

abbrev sequencer : Sequencer String
sequencer = record { name = "sequencer"; consensus_pubkey = "sequencer" }

abbrev plan : RollkitMigration String
plan = record { block_height = 100; sequencer = sequencer; attesters = [] }

abbrev planned : State String
planned = record { sequencer = none; migration = some plan; migration_step = none }

abbrev many : List (Validator String)
many = validator "sequencer" ∷ replicate 29 (validator "old")

smooth : IsSmooth texts plan many
unfolding contains
smooth = record { removed = omega arith; leaves = omega arith; arrives = omega arith }

blocks_complete_example :
    (outs : List (List (ValidatorUpdate String))) × (s' : State String) × (blocks texts
        texts_convert plan many smooth 31 planned
      ≡ (ok outs, s'))
    × (s'.sequencer ≡ some sequencer)
    × (s'.migration_step ≡ none)
    × ((k : ℕ)
        → k ≤ 30
        → (blocks texts texts_convert plan many smooth k planned).1.sequencer ≡ none)
blocks_complete_example =
    blocks_complete texts texts_convert plan many smooth planned refl refl (omega arith)

-- The fifth block of a migration of four validators to one of them.
abbrev late : State String
late = record planned { migration_step = some 4 }

abbrev few : List (Validator String)
few = validator "sequencer" ∷ validator "a" ∷ validator "b" ∷ validator "c" ∷ []

migrate_over_panics_example : migrate_over texts plan few late ≡ (panic, late)
migrate_over_panics_example =
    migrate_over_panics texts plan few late refl (omega arith) (omega arith) refl

abbrev request : MsgMigrateToRollkit String
request = record { authority = "gov"; block_height = 100; sequencer = sequencer; attesters = [] }

abbrev idle : State String
idle = record { sequencer = none; migration = none; migration_step = none }
