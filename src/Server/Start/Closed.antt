-- ===== src/Server/Start/Closed.antt =====
-- server/start.go: what is open when StartHandler has ended.
use go_execution_abci.Prelude.{
  Option, none, some, ◌≡◌, inl, inr, refl, ap, ◌∙◌, string_eq, Bool, true, false, if◌then◌else◌,
  List, [], ◌∷◌, ◌++◌, subst,
}
use go_execution_abci.Prelude.Exec.{
  Outcome, ok, err, panic, continue, reads, Keeps, >>=-Keeps, reads-Keeps, if-Keeps, step-Keeps,
  pure, or_panic, ◌>>=◌, ◌>>◌,
}
use go_execution_abci.Server.Start.{
  StartError, Resource, rpc_server, Kept, kv_store, p2p_client, proxy_app, da_client, grpc_client,
  acquires, Process, Calls, Start, goes, node_loop, deferred, closed, api_task, new_node,
  start_services, setup_node_and_executor, services_cleanup, start_grpc_server, start_api_server,
  serve, run_node, run_post_setup, start_in_process,
}
use go_execution_abci.Server.Start.Services.{
  continue-failed, indexed_bus, Left, Services, start_services_lem,
}

-- A step that opens and closes nothing.
abbrev pub Quiet : {A : Type 0} → List Resource → Start A → Type 0
Quiet l m = Keeps (λ p. p.opened ≡ l) m

module _ (l : List Resource) where
  pub read-Quiet : {A : Type 0} (r : Outcome StartError A) → Quiet l (reads (λ _. r))
  read-Quiet r = record { keeps = λ p h. h }

  pub pure-Quiet : {A : Type 0} (a : A) → Quiet l (pure a)
  pure-Quiet a = record { keeps = λ p h. h }

  -- A call that is made or not, and what follows.
  when-Quiet :
      {A : Type 0} (b : Bool) (r : Outcome StartError (Unit {0})) (m : Start A)
      → Quiet l m
      → Quiet l ((if b then reads (λ _. r) else pure tt) >> m)
  when-Quiet b r m h =
      >>=-Keeps (λ p. p.opened ≡ l) (if b then reads (λ _. r) else pure tt) _
        (if-Keeps (λ p. p.opened ≡ l) b (reads (λ _. r)) (pure tt) (read-Quiet r) (pure-Quiet tt))
        λ _. h

  pub then-Quiet :
      {A B : Type 0} (r : Outcome StartError A) {m : Start B}
      → Quiet l m
      → Quiet l (reads (λ _. r) >> m)
  then-Quiet r h = reads-Keeps (λ p. p.opened ≡ l) (λ _. r) (λ _. h)

  acquires-Quiet :
      {A : Type 0} (r : Outcome StartError (Unit {0})) (k : Kept) {m : Start A}
      → Quiet l m
      → Quiet l (acquires r k >> m)
  acquires-Quiet r k h =
      >>=-Keeps (λ p. p.opened ≡ l) (acquires r k) _ (then-Quiet r record { keeps = λ p e. e })
        (λ _. h)

module _ (calls : Calls) (l : List Resource) where
  new_node-Quiet : Quiet l (new_node calls)
  unfolding new_node
  new_node-Quiet = then-Quiet l calls.get_node_key (
      then-Quiet l calls.load_from_viper (
        when-Quiet l calls.aggregator calls.new_signer _ (
          then-Quiet l calls.start_genesis (
            acquires-Quiet l calls.new_store kv_store (
              acquires-Quiet l calls.new_p2p_client p2p_client (
                acquires-Quiet l (or_panic calls.start_proxy_app) proxy_app (
                  then-Quiet l calls.store_height (
                    acquires-Quiet l calls.new_da_client da_client (
                      then-Quiet l calls.nop_metrics (
                        when-Quiet l calls.prometheus calls.prometheus_metrics _
                          (then-Quiet l calls.new_sequencer (read-Quiet l calls.new_node))))))))))))

  post_setup-Quiet : (r : Option (Outcome StartError (Unit {0}))) → Quiet l (run_post_setup calls r)
  post_setup-Quiet none = pure-Quiet l tt
  post_setup-Quiet (some r) = read-Quiet l r

  serve-Quiet : (enabled : Bool) → Quiet l (serve calls enabled)
  unfolding serve start_grpc_server start_api_server
  serve-Quiet enabled =
      >>=-Keeps (λ p. p.opened ≡ l) (start_grpc_server calls enabled) _
        (if-Keeps (λ p. p.opened ≡ l) enabled _ (pure tt)
          (then-Quiet l calls.split_host_port (
            acquires-Quiet l calls.new_grpc_client grpc_client
              (then-Quiet l calls.new_grpc_server record { keeps = λ p h. h })))
          (pure-Quiet l tt))
        λ _.
          >>=-Keeps (λ p. p.opened ≡ l) (start_api_server calls) _
            (if-Keeps (λ p. p.opened ≡ l) calls.api_enabled (goes api_task) (pure tt)
              record { keeps = λ p h. h } (pure-Quiet l tt))
            λ _.
              >>=-Keeps (λ p. p.opened ≡ l) (run_post_setup calls calls.post_setup) _
                (post_setup-Quiet calls.post_setup) λ _. read-Quiet l calls.wait

  run_node-Quiet : Quiet l (run_node calls)
  run_node-Quiet =
      step-Keeps (λ p. p.opened ≡ l) (goes node_loop) (λ p h. h)
        λ _. then-Quiet l calls.start_executor (serve-Quiet calls.grpc_enabled)

  -- The clean-up of the services closes them all.
  services_cleanup-closes :
      (indexed : Bool) (p : Process)
      → p.opened ≡ rpc_server ∷ indexed_bus indexed ++ l
      → (services_cleanup calls indexed p).opened ≡ l
  unfolding services_cleanup closed
  services_cleanup-closes true p h = rw h refl
  services_cleanup-closes false p h = rw h refl

module _ (calls : Calls) where
  -- What StartInProcess leaves open, above what was open before.
  abbrev pub Leaves : Process → Process → Type 0
  Leaves p q = (left : List Resource) × (q.opened ≡ left ++ p.opened) × Left calls left

  after_new_node :
      (l : List Resource) (r : Outcome StartError (Unit {0})) (q : Process)
      → q.opened ≡ l
      → Services calls l (continue r q (λ _. start_services calls))
  after_new_node l (ok u) q h =
      subst (λ k. Services calls k (start_services calls q)) h (start_services_lem calls q)
  after_new_node l (err e) q h = inr ([], refl, h, inl refl)
  after_new_node l panic q h = inr ([], refl, h, inl refl)

  setup_lem : (p : Process) → Services calls p.opened (setup_node_and_executor calls p)
  unfolding setup_node_and_executor
  setup_lem p =
      after_new_node p.opened (new_node calls p).0 (new_node calls p).1
        ((new_node-Quiet calls p.opened).keeps p refl)

  after_setup :
      (p : Process) (r : Outcome StartError Bool) (q : Process)
      → Services calls p.opened (r, q)
      → Leaves p
          (continue r q (λ indexed. deferred (services_cleanup calls indexed) (run_node calls))).1
  after_setup p r q (inl (indexed, e, o)) = rw e (
    [],
    services_cleanup-closes calls p.opened indexed _
        ((run_node-Quiet calls (rpc_server ∷ indexed_bus indexed ++ p.opened)).keeps q o),
    inl refl,
  )
  after_setup p r q (inr (left, bad, o, why)) =
      (left, ap (λ s. s.opened) (continue-failed r q _ bad).1 ∙ o, why)

  in_mode :
      (p : Process) (grpc_only : Bool)
      → Leaves p
          ((if grpc_only
              then serve calls true
              else (setup_node_and_executor calls >>= λ indexed.
                  deferred (services_cleanup calls indexed) (run_node calls)))
            p).1
  in_mode p true = ([], (serve-Quiet calls p.opened true).keeps p refl, inl refl)
  in_mode p false =
      after_setup p (setup_node_and_executor calls p).0 (setup_node_and_executor calls p).1
        (setup_lem p)

  pub in_process_lem :
      (p : Process)
      → Leaves p (start_in_process calls p).1 × ((start_in_process calls p).1.cancelled ≡ true)
  unfolding start_in_process
  in_process_lem p = (in_mode p calls.grpc_only, refl)
