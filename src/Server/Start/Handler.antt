-- ===== src/Server/Start/Handler.antt =====
-- server/start.go: what StartHandler leaves open.
use go_execution_abci.Prelude.{
  ◌≡◌, ◌⊎◌, refl, string_eq, ◌==◌, Bool, true, false, not, if◌then◌else◌, List, [], ◌∷◌, ◌++◌,
}
use go_execution_abci.Prelude.Exec.{Outcome, ok, err, panic, reads, pure, ◌>>◌}
use go_execution_abci.Server.Start.{
  StartError, Resource, trace_writer, application_db, application, opens, Process, Calls, Start,
  deferred, get_and_validate_config, setup_trace_writer, start_app, app_cleanup, start_telemetry,
  start_in_process, start_handler,
}
use go_execution_abci.Server.Start.Services.{is_ok, Left}

abbrev writer : Bool → List Resource
writer true = trace_writer ∷ []
writer false = []

-- What startApp opens above `l`.
abbrev on_top : Bool → List Resource → List Resource
on_top traced l = application ∷ application_db ∷ (writer traced ++ l)

module _ (calls : Calls) where
  -- What a failed startApp leaves open above `l`: the trace writer, if there is one, where the database
  -- of the application could not be opened, and this database too where the creation of the
  -- application panicked.
  abbrev pub AppLeft : List Resource → List Resource → Type 0
  AppLeft l m =
      ((m ≡ trace_writer ∷ l)
        × (is_ok calls.db_opener ≡ false)
        × ((calls.trace_store == "") ≡ false))
      ⊎ ((traced : Bool) × (m ≡ application_db ∷ (writer traced ++ l))
          × (is_ok calls.db_opener ≡ true)
          × (calls.app_creator_panics ≡ true)
          × ((calls.trace_store == "") ≡ not traced))

  -- What the handler may leave open above `l`: what the services leave, or what startApp leaves.
  abbrev pub Remains : List Resource → List Resource → Type 0
  Remains l m = ((left : List Resource) × (m ≡ left ++ l) × Left calls left) ⊎ AppLeft l m

  abbrev serve_app : Bool → Start (Unit {0})
  serve_app traced =
      deferred (app_cleanup calls traced) (start_telemetry calls >> start_in_process calls)

  abbrev AppStarted : List Resource → Outcome StartError Bool × Process → Type 0
  AppStarted l (r, q) =
      ((traced : Bool) × (r ≡ ok traced) × (q.opened ≡ on_top traced l))
      ⊎ ((is_ok r ≡ false) × (q.opened ≡ l))
      ⊎ ((is_ok r ≡ false) × AppLeft l q.opened)

  -- From the database on.
  abbrev with_db : Bool → Start Bool
  with_db traced = do
    reads (λ _. calls.db_opener)
    opens application_db
    reads (λ _. if calls.app_creator_panics then panic else ok tt)
    opens application
    pure traced

  -- With a trace writer and a database that does not open, the trace writer stays open.
  pub start_handler_leaks :
      (e : StartError) (p : Process)
      → get_and_validate_config calls p ≡ (ok tt, p)
      → (calls.trace_store == "") ≡ false
      → calls.open_file ≡ ok tt
      → calls.db_opener ≡ err e
      → ((start_handler calls p).0 ≡ err e)
        × ((start_handler calls p).1.opened ≡ trace_writer ∷ p.opened)
  unfolding start_handler start_app setup_trace_writer
  start_handler_leaks e p fine named file db = rw (fine, named, file, db) (refl, refl)
