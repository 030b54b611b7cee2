-- ===== src/Tests/Nodes.antt =====
-- A node on a migrated chain, and one whose RPC server does not start.
use go_execution_abci.Prelude.{
  ℕ, ◌≡◌, refl, String, true, false, ◌==◌, string_eq, if◌then◌else◌, Option, none, some, [], ◌∷◌,
  sym, ap, ◌∙◌, inl, inr, Bool-cases,
}
use go_execution_abci.Prelude.Int.{pos, to_u64}
use go_execution_abci.Prelude.Exec.{Outcome, ok, err, pure, ok_inj}
use go_execution_abci.Compat.Types.{Bytes}
use go_execution_abci.Adapter.Env.{AppGenesis}
use go_execution_abci.Server.Migration.{
  MigrationError, no_key, marshal_genesis, unmarshal_genesis, migration_genesis, read_genesis,
  app_genesis, save_block, migrate, migrate_blocks, migrate_block, OldState, MigrationGenesis,
  sequencer_of,
}
use go_execution_abci.Server.Genesis.{
  Host, RollkitGenesis, to_rollkit_genesis, migrated_app_genesis, create_migration_genesis,
  start_genesis,
}
use go_execution_abci.Server.Genesis.Migrated.{IsHost, start_genesis-create}
use go_execution_abci.Server.Command.{
  not_exist, present, file_exists, require_file, stored_key, Command, load_state_and_block_store,
  load_rollkit_stores, convert_state, write_migration_genesis, migrate_to_rollkit,
}
use go_execution_abci.Server.Command.Marked.{Apart, start_genesis-migrate_to_rollkit}
use go_execution_abci.Tests.Servers.{the_block}
use go_execution_abci.Tests.Chains.{comet}
use go_execution_abci.Server.Start.{
  rpc, Process, Calls, start_handler, bus, index_service, get_and_validate_config, start_app,
  setup_trace_writer, start_telemetry, start_in_process, new_node, start_services,
  create_and_start_event_bus, create_and_start_indexer_service, setup_node_and_executor,
  app_cleanup, closed,
}

-- The file, or none. Its JSON is that of the chain "chain", with keys and addresses of one byte.
abbrev Disk : Type 0
Disk = Option Bytes

abbrev encode : String → ℕ → ℕ → Bytes → Bytes → Outcome MigrationError Bytes
encode chain_id height time (a ∷ []) (k ∷ []) =
    if chain_id == "chain" then ok (height ∷ time ∷ a ∷ k ∷ []) else err marshal_genesis
encode chain_id height time _ _ = err marshal_genesis

abbrev decode : Bytes → Outcome MigrationError MigrationGenesis
decode (height ∷ time ∷ a ∷ k ∷ []) = ok record {
  chain_id = "chain";
  initial_height = height;
  genesis_time = time;
  sequencer_addr = a ∷ [];
  sequencer_pub_key = k ∷ [];
}
decode _ = err unmarshal_genesis

abbrev host : Host Disk
host = record {
  is_missing = λ d. elim d [ none ↦ true | some b ↦ false ];
  read_file = λ d. elim d [ none ↦ err read_genesis | some b ↦ ok b ];
  write_file = λ b d. (ok tt, some b);
  marshal =
      λ g. encode g.chain_id g.initial_height g.genesis_time g.sequencer_addr g.sequencer_pub_key;
  unmarshal = decode;
  new_genesis = λ chain_id height time address. record {
    chain_id = chain_id;
    initial_height = height;
    genesis_da_start_time = time;
    proposer_address = address;
  };
  app_genesis = λ d. err app_genesis;
  to_genesis_doc = λ g. err app_genesis;
  nil_params = record { block_max_bytes = pos 0; others = [] };
}

decoded :
    (chain_id : String) (height time : ℕ) (addr key bytes : Bytes)
    → encode chain_id height time addr key ≡ ok bytes
    → decode bytes
      ≡ ok record {
        chain_id = chain_id;
        initial_height = height;
        genesis_time = time;
        sequencer_addr = addr;
        sequencer_pub_key = key;
      }
decoded chain_id height time [] key bytes e = cc
decoded chain_id height time (a ∷ b ∷ r) key bytes e = cc
decoded chain_id height time (a ∷ []) [] bytes e = cc
decoded chain_id height time (a ∷ []) (k ∷ l ∷ r) bytes e = cc
decoded chain_id height time (a ∷ []) (k ∷ []) bytes e = elim (Bool-cases (chain_id == "chain")) [
  | inr n ↦ cc (rw n at e)
  | inl y ↦
      let same : height ∷ time ∷ a ∷ k ∷ [] ≡ bytes = ok_inj (rw y at e) in
      ap decode (sym same)
      ∙ ap
          (λ c. ok record {
            chain_id = c;
            initial_height = height;
            genesis_time = time;
            sequencer_addr = a ∷ [];
            sequencer_pub_key = k ∷ [];
          })
          (sym ((string_eq.beq_iff chain_id "chain").0 y))
]

host-IsHost : IsHost host
host-IsHost = record {
  written = λ s s' bytes e.
      let same : some bytes ≡ s' = ap (λ r. r.1) e in
      (
        ap (λ (d : Disk). elim d [ none ↦ true | some b ↦ false ]) (sym same),
        ap (λ d. host.read_file d) (sym same),
      );
  decoded = λ g bytes e.
      decoded g.chain_id g.initial_height g.genesis_time g.sequencer_addr g.sequencer_pub_key bytes
        e;
  made = λ chain_id height time address. refl;
}

abbrev old : OldState
old = record {
  block_version = 11;
  app_version = 1;
  chain_id = "chain";
  initial_height = pos 1;
  last_block_height = pos 3;
  last_block_time = 1000;
  last_results_hash = [];
  app_hash = [];
  last_validators = (7 ∷ [], 8 ∷ []) ∷ [];
}

abbrev migrated : Disk
migrated = some (1 ∷ 1000 ∷ 7 ∷ 8 ∷ [])

created : create_migration_genesis host (λ key. key) old (err no_key) none ≡ (ok tt, migrated)
unfolding create_migration_genesis migration_genesis sequencer_of to_u64
created = refl

start_genesis-create_example :
    (v : Bytes × Bytes) × (g : RollkitGenesis) × (a : AppGenesis) × (sequencer_of
        (λ key. key)
        old.last_validators
        (err no_key)
      ≡ ok v)
    × (start_genesis host migrated ≡ ok (g, a))
    × (g ≡ record {
      chain_id = old.chain_id;
      initial_height = to_u64 old.initial_height;
      genesis_da_start_time = old.last_block_time;
      proposer_address = v.0;
    })
    × (a.chain_id ≡ old.chain_id)
    × (a.validators
        ≡ record { address = v.0; pub_key = v.1; voting_power = pos 1; proposer_priority = pos 0 }
          ∷ [])
start_genesis-create_example =
    start_genesis-create host host-IsHost (λ key. key) old (err no_key) none migrated created

abbrev node_calls : Calls
node_calls = record {
  config = ok tt;
  validate_basic = ok tt;
  trace_store = "trace";
  open_file = ok tt;
  db_opener = ok tt;
  app_creator_panics = false;
  telemetry_enabled = true;
  new_telemetry = ok tt;
  grpc_only = false;
  get_node_key = ok tt;
  load_from_viper = ok tt;
  aggregator = true;
  new_signer = ok tt;
  start_genesis = ok tt;
  new_store = ok tt;
  new_p2p_client = ok tt;
  start_proxy_app = ok tt;
  store_height = ok 3;
  new_da_client = ok tt;
  nop_metrics = ok tt;
  prometheus = false;
  prometheus_metrics = ok tt;
  new_sequencer = ok tt;
  new_node = ok tt;
  start_event_bus = ok tt;
  all_indexers_disabled = ok false;
  start_indexer = ok tt;
  start_rpc_server = err rpc;
  start_executor = ok tt;
  grpc_enabled = true;
  split_host_port = ok tt;
  new_grpc_client = ok tt;
  new_grpc_server = ok tt;
  api_enabled = true;
  post_setup = none;
  wait = ok tt;
}

abbrev process : Process
process = record { opened = []; kept = []; tasks = []; cancelled = false }

-- It leaves the event bus and the indexer's service open.
leaks : (start_handler node_calls process).1.opened ≡ index_service ∷ bus ∷ []
unfolding start_handler get_and_validate_config start_app setup_trace_writer start_telemetry
    start_in_process new_node start_services create_and_start_event_bus setup_node_and_executor
    create_and_start_indexer_service app_cleanup closed
leaks = refl

-- A migration of the one block 1, which the store of blocks refuses.
abbrev refused : Command Disk (Unit {0})
refused = record {
  parse_config = ok tt;
  block_store_path = λ d. present;
  open_block_store = pure tt;
  state_store_path = λ d. present;
  open_state_store = pure tt;
  load_state = λ d. ok (record old { last_block_height = pos 1 });
  new_kv_store = pure tt;
  new_data_sync_store = pure tt;
  new_header_sync_store = pure tt;
  save_state = λ s. pure tt;
  da_height = ok 1;
  update_state = λ s. pure tt;
  application_db = record {
    path = λ d. not_exist;
    open_db = λ d. ok tt;
    load_latest_version = λ d. ok tt;
    sequencer = λ d. ok none;
    unpack_interfaces = λ q. ok tt;
    consensus_pubkey = λ q. none;
  };
  address_of = λ key. key;
  load_block = λ n. some the_block;
  comet = comet;
  stores = record {
    save_block_data = λ h d s. (err save_block, s);
    init_header_sync = λ h. pure tt;
    init_data_sync = λ d. pure tt;
    set_height = λ h. pure tt;
  };
  close_rollkit_store = pure tt;
  close_block_store = pure tt;
  close_state_store = pure tt;
}

refused-Apart : Apart host refused
refused-Apart = record {
  save_block_data = λ g h d. record { keeps = λ s m. m };
  init_header_sync = λ g h. record { keeps = λ s m. m };
  init_data_sync = λ g d. record { keeps = λ s m. m };
  set_height = λ g h. record { keeps = λ s m. m };
  close_rollkit_store = λ g. record { keeps = λ s m. m };
  close_block_store = λ g. record { keeps = λ s m. m };
  close_state_store = λ g. record { keeps = λ s m. m };
}

-- The command fails.
fails : migrate_to_rollkit refused host none ≡ (err save_block, migrated)
unfolding migrate_to_rollkit convert_state load_state_and_block_store load_rollkit_stores
    require_file file_exists write_migration_genesis create_migration_genesis migration_genesis
    sequencer_of migrate migrate_blocks migrate_block to_u64
fails = refl

start_genesis-migrate_to_rollkit_example :
    (g : MigrationGenesis) × (migration_genesis refused.address_of
        (record old { last_block_height = pos 1 })
        (stored_key refused.application_db none)
      ≡ ok g)
    × (start_genesis host (migrate_to_rollkit refused host none).1
        ≡ ok (to_rollkit_genesis host g, migrated_app_genesis host g))
unfolding convert_state load_state_and_block_store load_rollkit_stores require_file file_exists
    write_migration_genesis create_migration_genesis migration_genesis sequencer_of to_u64
start_genesis-migrate_to_rollkit_example =
    start_genesis-migrate_to_rollkit host refused host-IsHost refused-Apart none none migrated
      (record old { last_block_height = pos 1 }) refl refl
