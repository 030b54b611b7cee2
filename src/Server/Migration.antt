-- ===== src/Server/Migration.antt =====
-- server/migration_cmd.go: blocks and states of CometBFT in the form of Rollkit, and the loop that
-- migrates the blocks. The stores are parameters.
pub mod Blocks
pub mod Headers
use go_execution_abci.Prelude.{
  ℕ, zero, suc, String, Bool, true, false, leb, if◌then◌else◌, Option, none, some, List, [], ◌∷◌,
}
use go_execution_abci.Prelude.Int.{ℤ, pos, pos_part, to_i64, to_u64}
use go_execution_abci.Prelude.Exec.{Outcome, ok, err, panic, Exec, then_ok, ◌>>=◌, ◌>>◌, pure}
use go_execution_abci.Compat.{bytes_beq}
use go_execution_abci.Compat.Types.{Bytes, Header, CommitSig, CometHeader, Block, Comet}

pub data MigrationError : Type 0 where
  save_block init_header_store init_data_store set_height : MigrationError
  no_validators no_sequencer no_key not_a_validator : MigrationError
  marshal_genesis write_genesis read_genesis unmarshal_genesis app_genesis : MigrationError
  parse_config no_block_store no_state_store load_state save_state update_state : MigrationError
  da_height_flag stat application_db no_application_db unpack close : MigrationError

abbrev pub max_missed_block : ℕ
max_missed_block = 50

-- A signed header of Rollkit with the fields that only the migration fills.
pub record MigratedHeader : Type 0 where
  pub header : Header
  pub block_version : ℕ
  pub last_header_hash : Bytes
  pub last_commit_hash : Bytes
  pub signature : Bytes

pub record MigratedData : Type 0 where
  pub chain_id : String
  pub height : ℕ
  pub time : ℕ
  pub last_data_hash : Bytes
  pub txs : List Bytes

-- The first signature of the commit that is the proposer's; nil is empty.
unfoldable pub proposer_signature : Bytes → List CommitSig → Bytes
proposer_signature proposer [] = []
proposer_signature proposer (sig ∷ sigs) =
    let rest = proposer_signature proposer sigs in
    if bytes_beq sig.validator_address proposer then sig.signature else rest

unfoldable pub migrated_header : Comet → Block → MigratedHeader
unfolding proposer_signature to_u64
migrated_header comet block = record {
  header = record {
    app_version = block.header.app_version;
    height = to_u64 block.header.height;
    time = block.header.time;
    data_hash = block.header.data_hash;
    consensus_hash = block.header.consensus_hash;
    app_hash = block.header.app_hash;
    last_results_hash = block.header.last_results_hash;
    proposer_address = block.header.proposer_address;
    validator_hash = block.header.validators_hash;
    chain_id = block.header.chain_id;
  };
  block_version = block.header.block_version;
  last_header_hash = comet.header_hash block.header;
  last_commit_hash = block.header.last_commit_hash;
  signature = proposer_signature block.header.proposer_address block.last_commit.signatures;
}

unfoldable pub migrated_data : Block → MigratedData
unfolding to_u64
migrated_data block = record {
  chain_id = block.header.chain_id;
  height = to_u64 block.header.height;
  time = block.header.time;
  last_data_hash = block.header.data_hash;
  txs = block.txs;
}

unfoldable pub comet_block_to_rollkit : Comet → Block → MigratedHeader × MigratedData
unfolding migrated_header migrated_data
comet_block_to_rollkit comet block = (migrated_header comet block, migrated_data block)

-- The stores of Rollkit, in a type S.
pub record RollkitStores (S : Type 0) : Type 0 where
  pub save_block_data : MigratedHeader → MigratedData → Exec MigrationError S (Unit {0})
  pub init_header_sync : MigratedHeader → Exec MigrationError S (Unit {0})
  pub init_data_sync : MigratedData → Exec MigrationError S (Unit {0})
  pub set_height : ℕ → Exec MigrationError S (Unit {0})

module _ {S : Type 0} (comet : Comet) (stores : RollkitStores S)
    (load_block : ℕ → Option Block) where
  abbrev init_sync : Bool → Block → Exec MigrationError S (Unit {0})
  init_sync false block = pure tt
  init_sync true block = do
    stores.init_header_sync (migrated_header comet block)
    stores.init_data_sync (migrated_data block)

  -- A block that was found; the first one initialises the sync stores.
  unfoldable pub migrate_block : Bool → Block → Exec MigrationError S (Unit {0})
  unfolding migrated_header migrated_data
  migrate_block init_sync_stores block = do
    stores.save_block_data (migrated_header comet block) (migrated_data block)
    init_sync init_sync_stores block

  -- The loop from a height down to 1, with the number of blocks that were not found.
  unfoldable pub migrate_blocks : ℕ → ℕ → Bool → Exec MigrationError S (Unit {0})
  unfolding migrate_block
  migrate_blocks zero missed init_sync_stores = pure tt
  migrate_blocks (suc height) missed init_sync_stores = elim (leb max_missed_block missed) [
    | true ↦ pure tt
    | false ↦ elim (load_block (suc height)) [
      | none ↦ migrate_blocks height (suc missed) init_sync_stores
      | some block ↦ migrate_block init_sync_stores block >> migrate_blocks height missed false
    ]
  ]

  -- The part of the command from the loop on.
  unfoldable pub migrate : ℤ → Exec MigrationError S (Unit {0})
  unfolding migrate_blocks to_u64
  migrate last_block_height = do
    migrate_blocks (pos_part last_block_height) 0 true
    stores.set_height (to_u64 last_block_height)

-- state.State of CometBFT, and the state of Rollkit that is made of it.
pub record OldState : Type 0 where
  pub block_version : ℕ
  pub app_version : ℕ
  pub chain_id : String
  pub initial_height : ℤ
  pub last_block_height : ℤ
  pub last_block_time : ℕ
  pub last_results_hash : Bytes
  pub app_hash : Bytes
  pub last_validators : List (Bytes × Bytes)

pub record RollkitState : Type 0 where
  pub block_version : ℕ
  pub app_version : ℕ
  pub chain_id : String
  pub initial_height : ℕ
  pub last_block_height : ℕ
  pub last_block_time : ℕ
  pub da_height : ℕ
  pub last_results_hash : Bytes
  pub app_hash : Bytes

unfoldable pub rollkit_state : OldState → ℕ → RollkitState
unfolding to_u64
rollkit_state s da_height = record {
  block_version = s.block_version;
  app_version = s.app_version;
  chain_id = s.chain_id;
  initial_height = to_u64 s.last_block_height;
  last_block_height = to_u64 s.last_block_height;
  last_block_time = s.last_block_time;
  da_height = da_height;
  last_results_hash = s.last_results_hash;
  app_hash = s.app_hash;
}

unfoldable pub is_last_validator : Bytes → List (Bytes × Bytes) → Bool
is_last_validator address [] = false
is_last_validator address ((a, key) ∷ rest) =
    let found = is_last_validator address rest in if bytes_beq a address then true else found

-- The manager's sequencer, by its public key, if the module's state has one that unpacks; `address_of` is
-- that of the key's package.
unfoldable pub manager_sequencer :
    (Bytes → Bytes)
    → List (Bytes × Bytes)
    → Outcome MigrationError Bytes
    → Outcome MigrationError (Bytes × Bytes)
unfolding is_last_validator
manager_sequencer address_of validators (ok key) =
    if is_last_validator (address_of key) validators
    then ok (address_of key, key)
    else err not_a_validator
manager_sequencer address_of validators (err e) = err e
manager_sequencer address_of validators panic = panic

-- The address and the key of the sequencer in the migration's genesis.
unfoldable pub sequencer_of :
    (Bytes → Bytes)
    → List (Bytes × Bytes)
    → Outcome MigrationError Bytes
    → Outcome MigrationError (Bytes × Bytes)
unfolding manager_sequencer
sequencer_of address_of [] stored = err no_validators
sequencer_of address_of (v ∷ []) stored = ok v
sequencer_of address_of (v ∷ w ∷ rest) stored = manager_sequencer address_of (v ∷ w ∷ rest) stored

pub record MigrationGenesis : Type 0 where
  pub chain_id : String
  pub initial_height : ℕ
  pub genesis_time : ℕ
  pub sequencer_addr : Bytes
  pub sequencer_pub_key : Bytes

unfoldable pub migration_genesis :
    (Bytes → Bytes)
    → OldState
    → Outcome MigrationError Bytes
    → Outcome MigrationError MigrationGenesis
unfolding sequencer_of to_u64
migration_genesis address_of s stored =
    then_ok (sequencer_of address_of s.last_validators stored) λ sequencer. ok record {
      chain_id = s.chain_id;
      initial_height = to_u64 s.initial_height;
      genesis_time = s.last_block_time;
      sequencer_addr = sequencer.0;
      sequencer_pub_key = sequencer.1;
    }
