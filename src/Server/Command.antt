-- ===== src/Server/Command.antt =====
-- server/migration_cmd.go: the command rollkit-migrate, from the opening of the stores to their closing.
-- Databases, files and flags are parameters.
pub mod Marked
use go_execution_abci.Prelude.{ℕ, Bool, true, false, if◌then◌else◌, Option, none, some}
use go_execution_abci.Prelude.Exec.{
  Outcome, ok, err, panic, then_ok, or_err, Exec, ◌>>=◌, ◌>>◌, reads,
}
use go_execution_abci.Compat.Types.{Bytes, Block, Comet}
use go_execution_abci.Server.Migration.{
  MigrationError, no_block_store, no_state_store, stat, no_application_db, no_sequencer, no_key,
  RollkitStores, OldState, RollkitState, rollkit_state, migrate,
}
use go_execution_abci.Server.Genesis.{Host, create_migration_genesis}

-- What os.Stat says of a path.
pub data Stat : Type 0 where
  present not_exist unreadable : Stat

unfoldable pub file_exists : Stat → Outcome MigrationError Bool
file_exists present = ok true
file_exists not_exist = ok false
file_exists unreadable = err stat

-- A path that must be there: neither an absent file nor a failing os.Stat lets the command go on.
unfoldable pub require_file : Stat → MigrationError → Outcome MigrationError (Unit {0})
unfolding file_exists
require_file path e = elim (file_exists path) [
  | ok found ↦ if found then ok tt else err e
  | err _ ↦ err e
  | panic ↦ panic
]

-- The application's database on a disk of type S, and the stored sequencer of type Q with its key: none
-- for a nil key, `some none` for one that is no public key.
pub record ApplicationDb (S Q : Type 0) : Type 0 where
  pub path : S → Stat
  pub open_db : S → Outcome MigrationError (Unit {0})
  pub load_latest_version : S → Outcome MigrationError (Unit {0})
  pub sequencer : S → Outcome MigrationError (Option Q)
  pub unpack_interfaces : Q → Outcome MigrationError (Unit {0})
  pub consensus_pubkey : Q → Option (Option Bytes)

module _ {S Q : Type 0} (db : ApplicationDb S Q) where
  -- The key of the sequencer that the manager's module has stored.
  unfoldable pub stored_key : S → Outcome MigrationError Bytes
  unfolding file_exists
  stored_key s = then_ok (file_exists (db.path s)) λ found.
      if found
      then (then_ok (db.open_db s) λ _. then_ok (db.load_latest_version s) λ _.
          then_ok (db.sequencer s) λ item. then_ok (or_err item no_sequencer) λ sequencer.
            then_ok (db.unpack_interfaces sequencer)
              λ _. then_ok (or_err (db.consensus_pubkey sequencer) no_key) λ key. or_err key no_key)
      else err no_application_db

-- The databases, the flags and the stores of the command.
pub record Command (S Q : Type 0) : Type 0 where
  pub parse_config : Outcome MigrationError (Unit {0})
  pub block_store_path : S → Stat
  pub open_block_store : Exec MigrationError S (Unit {0})
  pub state_store_path : S → Stat
  pub open_state_store : Exec MigrationError S (Unit {0})
  pub load_state : S → Outcome MigrationError OldState
  pub new_kv_store : Exec MigrationError S (Unit {0})
  pub new_data_sync_store : Exec MigrationError S (Unit {0})
  pub new_header_sync_store : Exec MigrationError S (Unit {0})
  pub save_state : OldState → Exec MigrationError S (Unit {0})
  pub da_height : Outcome MigrationError ℕ
  pub update_state : RollkitState → Exec MigrationError S (Unit {0})
  pub application_db : ApplicationDb S Q
  pub address_of : Bytes → Bytes
  pub load_block : ℕ → Option Block
  pub comet : Comet
  pub stores : RollkitStores S
  pub close_rollkit_store : Exec MigrationError S (Unit {0})
  pub close_block_store : Exec MigrationError S (Unit {0})
  pub close_state_store : Exec MigrationError S (Unit {0})

-- The errors of two calls, joined: the second is made also if the first one fails.
abbrev pub after_close :
    {S : Type 0}
    → Outcome MigrationError (Unit {0})
    → S
    → Exec MigrationError S (Unit {0})
    → Outcome MigrationError (Unit {0}) × S
after_close (ok _) s n = n s
after_close (err e) s n = (elim (n s).0 [ ok _ ↦ err e | err _ ↦ err e | panic ↦ panic ], (n s).1)
after_close panic s n = (panic, s)

unfoldable pub join :
    {S : Type 0}
    → Exec MigrationError S (Unit {0})
    → Exec MigrationError S (Unit {0})
    → Exec MigrationError S (Unit {0})
join m n s = after_close (m s).0 (m s).1 n

module _ {S Q : Type 0} (c : Command S Q) where
  unfoldable pub load_state_and_block_store : Exec MigrationError S (Unit {0})
  unfolding require_file
  load_state_and_block_store = do
    reads (λ s. require_file (c.block_store_path s) no_block_store)
    c.open_block_store
    reads (λ s. require_file (c.state_store_path s) no_state_store)
    c.open_state_store

  unfoldable pub load_rollkit_stores : Exec MigrationError S (Unit {0})
  load_rollkit_stores = do c.new_kv_store; c.new_data_sync_store; c.new_header_sync_store

  -- The command up to the state in the form of Rollkit, with the state of CometBFT.
  unfoldable pub convert_state : Exec MigrationError S OldState
  unfolding load_state_and_block_store load_rollkit_stores rollkit_state
  convert_state = do
    reads (λ _. c.parse_config)
    load_state_and_block_store
    old ← reads c.load_state
    load_rollkit_stores
    c.save_state old
    da_height ← reads (λ _. c.da_height)
    c.update_state (rollkit_state old da_height)
    reads (λ _. ok old)

  -- The stored key is asked for only where there are several validators.
  unfoldable pub write_migration_genesis : Host S → OldState → Exec MigrationError S (Unit {0})
  unfolding create_migration_genesis stored_key
  write_migration_genesis host old s =
      create_migration_genesis host c.address_of old (stored_key c.application_db s) s

  unfoldable pub close_stores : Exec MigrationError S (Unit {0})
  unfolding join
  close_stores = join c.close_rollkit_store (join c.close_block_store c.close_state_store)

  unfoldable pub migrate_to_rollkit : Host S → Exec MigrationError S (Unit {0})
  unfolding convert_state write_migration_genesis migrate close_stores
  migrate_to_rollkit host = do
    old ← convert_state
    write_migration_genesis host old
    migrate c.comet c.stores c.load_block old.last_block_height
    close_stores
