-- ===== src/Server/Start.antt =====
-- server/start.go: how the node is started, in the order in which its parts are opened, and closed by
-- the functions that are deferred.
pub mod Services
pub mod Closed
pub mod Handler
use go_execution_abci.Prelude.{
  ℕ, ◌+◌, ◌==◌, nat_eq, string_eq, String, Bool, true, false, if◌then◌else◌, Option, none, some,
  List, [], ◌∷◌, Eq,
}
use go_execution_abci.Prelude.Exec.{
  Outcome, ok, err, panic, or_panic, Exec, ◌>>=◌, ◌>>◌, pure, reads, modify, ensure, guard,
}

pub data StartError : Type 0 where
  bad_config open_trace open_db telemetry node_key rollkit_config signer genesis : StartError
  open_store p2p proxy height da_client metrics sequencer node event_bus indexer : StartError
  rpc start_executor address grpc_client grpc_server post_setup stopped : StartError

-- What the code opens and has functions to close. The database of the application is closed with it.
pub data Resource : Type 0 where
  trace_writer application_db application bus index_service rpc_server : Resource

-- What the code opens and has no function to close.
pub data Kept : Type 0 where
  kv_store p2p_client proxy_app da_client grpc_client : Kept

-- What runs in goroutines of the group until the context is cancelled.
pub data Task : Type 0 where
  node_loop grpc_task api_task : Task

-- The process: what is open, newest first, of what can be closed and of the rest, the tasks, and
-- whether their context is cancelled.
pub record Process : Type 0 where
  pub opened : List Resource
  pub kept : List Kept
  pub tasks : List Task
  pub cancelled : Bool

-- The configuration, and what the calls of other packages come to.
pub record Calls : Type 0 where
  pub config : Outcome StartError (Unit {0})
  pub validate_basic : Outcome StartError (Unit {0})
  pub trace_store : String
  pub open_file : Outcome StartError (Unit {0})
  pub db_opener : Outcome StartError (Unit {0})
  -- The creation of the application returns no error, but it may panic.
  pub app_creator_panics : Bool
  pub telemetry_enabled : Bool
  pub new_telemetry : Outcome StartError (Unit {0})
  pub grpc_only : Bool
  pub get_node_key : Outcome StartError (Unit {0})
  pub load_from_viper : Outcome StartError (Unit {0})
  pub aggregator : Bool
  pub new_signer : Outcome StartError (Unit {0})
  pub start_genesis : Outcome StartError (Unit {0})
  pub new_store : Outcome StartError (Unit {0})
  pub new_p2p_client : Outcome StartError (Unit {0})
  pub start_proxy_app : Outcome StartError (Unit {0})
  pub store_height : Outcome StartError ℕ
  pub new_da_client : Outcome StartError (Unit {0})
  pub nop_metrics : Outcome StartError (Unit {0})
  pub prometheus : Bool
  pub prometheus_metrics : Outcome StartError (Unit {0})
  pub new_sequencer : Outcome StartError (Unit {0})
  pub new_node : Outcome StartError (Unit {0})
  pub start_event_bus : Outcome StartError (Unit {0})
  pub all_indexers_disabled : Outcome StartError Bool
  pub start_indexer : Outcome StartError (Unit {0})
  pub start_rpc_server : Outcome StartError (Unit {0})
  pub start_executor : Outcome StartError (Unit {0})
  pub grpc_enabled : Bool
  pub split_host_port : Outcome StartError (Unit {0})
  pub new_grpc_client : Outcome StartError (Unit {0})
  pub new_grpc_server : Outcome StartError (Unit {0})
  pub api_enabled : Bool
  pub post_setup : Option (Outcome StartError (Unit {0}))
  pub wait : Outcome StartError (Unit {0})

abbrev pub Start : Type 0 → Type 0
Start A = Exec StartError Process A

abbrev pub opens : Resource → Start (Unit {0})
opens r = modify (λ p. record p { opened = r ∷ p.opened })

abbrev pub keeps : Kept → Start (Unit {0})
keeps k = modify (λ p. record p { kept = k ∷ p.kept })

-- A call that opens what is not closed.
abbrev pub acquires : Outcome StartError (Unit {0}) → Kept → Start (Unit {0})
acquires r k = reads (λ _. r) >> keeps k

abbrev pub goes : Task → Start (Unit {0})
goes t = modify (λ p. record p { tasks = t ∷ p.tasks })

-- `defer f()`: f runs after the rest of the function, however this ends.
abbrev pub deferred : {A : Type 0} → (Process → Process) → Start A → Start A
deferred f m p = let (r, q) = m p in (r, f q)

abbrev resource_beq : Resource → Resource → Bool
resource_beq trace_writer trace_writer = true
resource_beq application_db application_db = true
resource_beq application application = true
resource_beq bus bus = true
resource_beq index_service index_service = true
resource_beq rpc_server rpc_server = true
resource_beq _ _ = false

-- Closes the newest of its kind.
unfoldable pub closed : Resource → List Resource → List Resource
closed r [] = []
closed r (x ∷ xs) = let rest = closed r xs in if resource_beq r x then xs else x ∷ rest

abbrev pub closes : Resource → Process → Process
closes r p = record p { opened = closed r p.opened }

module _ (calls : Calls) where
  unfoldable pub get_and_validate_config : Start (Unit {0})
  get_and_validate_config = do reads (λ _. calls.config); reads (λ _. calls.validate_basic)

  -- Whether there is a trace writer.
  unfoldable pub setup_trace_writer : Start Bool
  setup_trace_writer =
      if calls.trace_store == ""
      then pure false
      else (reads (λ _. calls.open_file) >> (opens trace_writer >> pure true))

  unfoldable pub start_app : Start Bool
  unfolding setup_trace_writer
  start_app = do
    traced ← setup_trace_writer
    reads (λ _. calls.db_opener)
    opens application_db
    reads (λ _. if calls.app_creator_panics then panic else ok tt)
    opens application
    pure traced

  -- The clean-up function of startApp; the application closes its database with itself.
  unfoldable pub app_cleanup : Bool → Process → Process
  app_cleanup traced p =
      closes application_db (closes application (if traced then closes trace_writer p else p))

  unfoldable pub start_telemetry : Start (Unit {0})
  start_telemetry = if calls.telemetry_enabled then reads (λ _. calls.new_telemetry) else pure tt

  -- setupNodeAndExecutor up to the node; a proxy app that does not start panics.
  unfoldable pub new_node : Start (Unit {0})
  new_node = do
    reads (λ _. calls.get_node_key)
    reads (λ _. calls.load_from_viper)
    if calls.aggregator then reads (λ _. calls.new_signer) else pure tt
    reads (λ _. calls.start_genesis)
    acquires calls.new_store kv_store
    acquires calls.new_p2p_client p2p_client
    acquires (or_panic calls.start_proxy_app) proxy_app
    reads (λ _. calls.store_height)
    acquires calls.new_da_client da_client
    reads (λ _. calls.nop_metrics)
    if calls.prometheus then reads (λ _. calls.prometheus_metrics) else pure tt
    reads (λ _. calls.new_sequencer)
    reads (λ _. calls.new_node)

  unfoldable pub create_and_start_event_bus : Start (Unit {0})
  create_and_start_event_bus = do reads (λ _. calls.start_event_bus); opens bus

  -- Whether there is a service; without indexers there is none.
  unfoldable pub create_and_start_indexer_service : Start Bool
  create_and_start_indexer_service = do
    disabled ← reads (λ _. calls.all_indexers_disabled)
    if disabled
        then pure false
        else (reads (λ _. calls.start_indexer) >> (opens index_service >> pure true))

  unfoldable pub start_services : Start Bool
  unfolding create_and_start_event_bus create_and_start_indexer_service
  start_services = do
    create_and_start_event_bus
    indexed ← create_and_start_indexer_service
    reads (λ _. calls.start_rpc_server)
    opens rpc_server
    pure indexed

  unfoldable pub setup_node_and_executor : Start Bool
  unfolding new_node start_services
  setup_node_and_executor = new_node >> start_services

  -- The clean-up function of setupNodeAndExecutor.
  unfoldable pub services_cleanup : Bool → Process → Process
  services_cleanup indexed p =
      let q = closes bus p in closes rpc_server (if indexed then closes index_service q else q)

  -- Enabled or not, which the mode with gRPC alone decides.
  unfoldable pub start_grpc_server : Bool → Start (Unit {0})
  start_grpc_server enabled =
      if enabled
      then (reads (λ _. calls.split_host_port)
          >> (acquires calls.new_grpc_client grpc_client
              >> (reads (λ _. calls.new_grpc_server) >> goes grpc_task)))
      else pure tt

  unfoldable pub start_api_server : Start (Unit {0})
  start_api_server = if calls.api_enabled then goes api_task else pure tt

  abbrev run_post_setup : Option (Outcome StartError (Unit {0})) → Start (Unit {0})
  run_post_setup none = pure tt
  run_post_setup (some r) = reads (λ _. r)

  -- startInProcess from the gRPC server on, up to Wait.
  unfoldable pub serve : Bool → Start (Unit {0})
  unfolding start_grpc_server start_api_server
  serve grpc_enabled = do
    start_grpc_server grpc_enabled
    start_api_server
    run_post_setup calls.post_setup
    reads (λ _. calls.wait)

  abbrev run_node : Start (Unit {0})
  run_node = do goes node_loop; reads (λ _. calls.start_executor); serve calls.grpc_enabled

  unfoldable pub start_in_process : Start (Unit {0})
  unfolding serve setup_node_and_executor services_cleanup
  start_in_process =
      deferred (λ p. record p { cancelled = true })
        (if calls.grpc_only
          then serve true
          else (setup_node_and_executor >>= λ indexed.
              deferred (services_cleanup indexed) run_node))

  -- StartHandler.
  unfoldable pub start_handler : Start (Unit {0})
  unfolding get_and_validate_config start_app app_cleanup start_telemetry start_in_process
  start_handler = do
    get_and_validate_config
    traced ← start_app
    deferred (app_cleanup traced) (start_telemetry >> start_in_process)
