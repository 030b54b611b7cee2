-- ===== src/Server/Genesis.antt =====
-- server/migration_cmd.go and server/start.go: the genesis that the migration writes, and the genesis
-- that a node starts with.
pub mod Migrated
use go_execution_abci.Prelude.{
  ℕ, String, Bool, true, false, if◌then◌else◌, Option, none, some, List, [], ◌∷◌,
}
use go_execution_abci.Prelude.Int.{ℤ, pos, to_i64, to_u64}
use go_execution_abci.Prelude.Exec.{Outcome, ok, err, panic, then_ok, Exec, ◌>>=◌, ◌>>◌, reads}
use go_execution_abci.Compat.Types.{Bytes}
use go_execution_abci.Adapter.Types.{Validator, ConsensusParams}
use go_execution_abci.Adapter.Env.{AppGenesis}
use go_execution_abci.Server.Migration.{
  MigrationError, OldState, MigrationGenesis, migration_genesis,
}

-- genesis.Genesis of Rollkit, with the fields that the server names.
pub record RollkitGenesis : Type 0 where
  pub chain_id : String
  pub initial_height : ℕ
  pub genesis_da_start_time : ℕ
  pub proposer_address : Bytes

-- The genesis document of CometBFT; of its validators, the addresses.
pub record GenesisDoc : Type 0 where
  pub chain_id : String
  pub initial_height : ℤ
  pub genesis_time : ℕ
  pub validators : List Bytes

-- The file rollkit_genesis.json below the root directory, on a disk of type S: whether it is missing,
-- its bytes, and writing it. Then the JSON of CometBFT for its content, Rollkit's NewGenesis, the
-- genesis file of the application, and its form as a genesis document.
pub record Host (S : Type 0) : Type 0 where
  pub is_missing : S → Bool
  pub read_file : S → Outcome MigrationError Bytes
  pub write_file : Bytes → Exec MigrationError S (Unit {0})
  pub marshal : MigrationGenesis → Outcome MigrationError Bytes
  pub unmarshal : Bytes → Outcome MigrationError MigrationGenesis
  pub new_genesis : String → ℕ → ℕ → Bytes → RollkitGenesis
  pub app_genesis : S → Outcome MigrationError AppGenesis
  pub to_genesis_doc : AppGenesis → Outcome MigrationError GenesisDoc
  pub nil_params : ConsensusParams

module _ {S : Type 0} (host : Host S) where
  unfoldable pub create_migration_genesis :
      (Bytes → Bytes) → OldState → Outcome MigrationError Bytes → Exec MigrationError S (Unit {0})
  create_migration_genesis address_of s stored = do
    genesis ← reads (λ _. migration_genesis address_of s stored)
    bytes ← reads (λ _. host.marshal genesis)
    host.write_file bytes

  unfoldable pub load_migration_genesis : S → Outcome MigrationError (Option MigrationGenesis)
  load_migration_genesis disk =
      if host.is_missing disk
      then ok none
      else (then_ok (host.read_file disk)
          λ bytes. then_ok (host.unmarshal bytes) λ genesis. ok (some genesis))

  unfoldable pub to_rollkit_genesis : MigrationGenesis → RollkitGenesis
  to_rollkit_genesis g =
      host.new_genesis g.chain_id g.initial_height g.genesis_time g.sequencer_addr

  -- The sequencer is the first validator of the document; without one, its read panics.
  unfoldable pub create_rollkit_genesis :
      GenesisDoc → List Bytes → Outcome MigrationError RollkitGenesis
  unfolding to_u64
  create_rollkit_genesis doc [] = panic
  create_rollkit_genesis doc (address ∷ _) =
      ok (host.new_genesis doc.chain_id (to_u64 doc.initial_height) doc.genesis_time address)

  -- The genesis of the application that stands for that of a migrated chain.
  unfoldable pub migrated_app_genesis : MigrationGenesis → AppGenesis
  unfolding to_rollkit_genesis to_i64
  migrated_app_genesis g = record {
    genesis_time = (to_rollkit_genesis g).genesis_da_start_time;
    chain_id = g.chain_id;
    initial_height = to_i64 g.initial_height;
    validators =
        record {
          address = g.sequencer_addr;
          pub_key = g.sequencer_pub_key;
          voting_power = pos 1;
          proposer_priority = pos 0;
        }
        ∷ [];
    consensus_params = host.nil_params;
    app_state = [];
  }

  abbrev genesis_for :
      S → Option MigrationGenesis → Outcome MigrationError (RollkitGenesis × AppGenesis)
  genesis_for disk (some g) = ok (to_rollkit_genesis g, migrated_app_genesis g)
  genesis_for disk none = then_ok (host.app_genesis disk) λ genesis.
      then_ok (host.to_genesis_doc genesis)
        λ doc. then_ok (create_rollkit_genesis doc doc.validators) λ rollkit. ok (rollkit, genesis)

  -- The genesis that the node and the adapter are built with.
  unfoldable pub start_genesis : S → Outcome MigrationError (RollkitGenesis × AppGenesis)
  unfolding load_migration_genesis to_rollkit_genesis migrated_app_genesis create_rollkit_genesis
  start_genesis disk = then_ok (load_migration_genesis disk) (genesis_for disk)
