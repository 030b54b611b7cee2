-- ===== src/Server/Start/Services.antt =====
-- server/start.go: what is open when the services of the node have been started, or could not be.
use go_execution_abci.Prelude.{
  ◌≡◌, ◌⊎◌, inl, inr, refl, ap, ◌∙◌, Bool, true, false, if◌then◌else◌, List, [], ◌∷◌, ◌++◌,
}
use go_execution_abci.Prelude.Exec.{
  Outcome, ok, err, panic, then_ok, Outcome-cases, continue, reads, pure, ◌>>=◌, ◌>>◌,
}
use go_execution_abci.Server.Start.{
  StartError, Resource, bus, index_service, rpc_server, Process, Calls, Start, opens,
  create_and_start_event_bus, create_and_start_indexer_service, start_services,
}

abbrev pub is_ok : {A : Type 0} → Outcome StartError A → Bool
is_ok (ok a) = true
is_ok (err e) = false
is_ok panic = false

pub continue-failed :
    {A B : Type 0} (r : Outcome StartError A) (p : Process) (f : A → Start B)
    → is_ok r ≡ false
    → (is_ok (continue r p f).0 ≡ false) × ((continue r p f).1 ≡ p)
continue-failed (ok a) p f h = cc
continue-failed (err e) p f h = (refl, refl)
continue-failed panic p f h = (refl, refl)

-- The services, newest first, where the indexer's is one of them or not.
abbrev pub indexed_bus : Bool → List Resource
indexed_bus true = index_service ∷ bus ∷ []
indexed_bus false = bus ∷ []

module _ (calls : Calls) where
  -- What the indexer's service comes to, and whether it runs.
  abbrev pub indexing : Outcome StartError Bool
  indexing =
      then_ok calls.all_indexers_disabled
        λ disabled. if disabled then ok false else then_ok calls.start_indexer (λ _. ok true)

  -- What a start that failed leaves open: nothing, unless it was at the indexer or at the RPC server.
  abbrev pub Left : List Resource → Type 0
  Left left =
      (left ≡ [])
      ⊎ ((left ≡ bus ∷ []) × (is_ok indexing ≡ false))
      ⊎ ((indexed : Bool) × (left ≡ indexed_bus indexed)
          × (indexing ≡ ok indexed)
          × (is_ok calls.start_rpc_server ≡ false))

  -- The services were started, or not, on a process with the resources `l`.
  abbrev pub Services : List Resource → Outcome StartError Bool × Process → Type 0
  Services l (r, q) =
      ((indexed : Bool) × (r ≡ ok indexed) × (q.opened ≡ rpc_server ∷ indexed_bus indexed ++ l))
      ⊎ ((left : List Resource) × (is_ok r ≡ false) × (q.opened ≡ left ++ l) × Left left)

  create_and_start_indexer_service_lem :
      (p : Process)
      → ((indexed : Bool) × (indexing ≡ ok indexed)
          × (create_and_start_indexer_service calls p
              ≡ (ok indexed, if indexed then (opens index_service p).1 else p)))
        ⊎ ((is_ok indexing ≡ false)
            × (is_ok (create_and_start_indexer_service calls p).0 ≡ false)
            × ((create_and_start_indexer_service calls p).1 ≡ p))
  unfolding create_and_start_indexer_service
  create_and_start_indexer_service_lem p = elim (Outcome-cases calls.all_indexers_disabled) [
    | inl (true, e) ↦ inl (false, rw e refl, rw e refl)
    | inl (false, e) ↦ elim (Outcome-cases calls.start_indexer) [
      | inl (u, k) ↦ inl (true, rw (e, k) refl, rw (e, k) refl)
      | inr (inl (x, k)) ↦ inr (rw (e, k) refl, rw (e, k) refl, rw (e, k) refl)
      | inr (inr k) ↦ inr (rw (e, k) refl, rw (e, k) refl, rw (e, k) refl)
    ]
    | inr (inl (x, e)) ↦ inr (rw e refl, rw e refl, rw e refl)
    | inr (inr e) ↦ inr (rw e refl, rw e refl, rw e refl)
  ]

  -- After the event bus: the indexer's service, the RPC server, and what is left open.
  abbrev behind_bus : Start Bool
  behind_bus = do
    indexed ← create_and_start_indexer_service calls
    reads (λ _. calls.start_rpc_server)
    opens rpc_server
    pure indexed

  started :
      (p : Process) (indexed : Bool)
      → (if indexed then (opens index_service (opens bus p).1).1 else (opens bus p).1).opened
        ≡ indexed_bus indexed ++ p.opened
  started p true = refl
  started p false = refl

  behind_bus_lem : (p : Process) → Services p.opened (behind_bus (opens bus p).1)
  behind_bus_lem p = elim (create_and_start_indexer_service_lem (opens bus p).1) [
    | inr (bad, failed, same) ↦
        let (stays, back) =
          continue-failed (create_and_start_indexer_service calls (opens bus p).1).0
            (create_and_start_indexer_service calls (opens bus p).1).1
            (λ indexed. reads (λ _. calls.start_rpc_server) >> (opens rpc_server >> pure indexed))
            failed in
        inr (bus ∷ [], stays, ap (λ r. r.opened) (back ∙ same), inr (inl (refl, bad)))
    | inl (indexed, fine, ran) ↦ elim (Outcome-cases calls.start_rpc_server) [
      | inl (u, e) ↦ rw (ran, e) (inl (indexed, refl, ap (λ l. rpc_server ∷ l) (started p indexed)))
      | inr (inl (x, e)) ↦
          rw (ran, e)
            (inr
              (indexed_bus indexed, refl, started p indexed, inr (inr (indexed, refl, fine, refl))))
      | inr (inr e) ↦
          rw (ran, e)
            (inr
              (indexed_bus indexed, refl, started p indexed, inr (inr (indexed, refl, fine, refl))))
    ]
  ]

  pub start_services_lem : (p : Process) → Services p.opened (start_services calls p)
  unfolding start_services create_and_start_event_bus
  start_services_lem p = elim (Outcome-cases calls.start_event_bus) [
    | inl (u, e) ↦ rw e (behind_bus_lem p)
    | inr (inl (x, e)) ↦ rw e (inr ([], refl, refl, inl refl))
    | inr (inr e) ↦ rw e (inr ([], refl, refl, inl refl))
  ]
