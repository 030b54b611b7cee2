-- ===== src/Rpc/Events/Bounds.antt =====
-- pkg/rpc/core/events.go: how many subscribers and subscriptions there can be.
use go_execution_abci.Prelude.{
  ℕ, suc, ◌+◌, ◌≤◌, ◌<◌, ◌≡◌, refl, String, false, if◌then◌else◌, ltb, List, [], ◌∷◌, arith, length,
  Bool-cases, Option-cases, inl, inr, ◌==◌, string_eq, subst, ltb→lt,
}
use go_execution_abci.Prelude.Exec.{Outcome, ok, err, panic, ensure-eq-ok}
use go_execution_abci.Compat.Types.{Bytes}
use go_execution_abci.Rpc.Events.{
  EventError, Limits, EventBus, check_clients, check_query, register, unsubscribe, unsubscribe_all,
}
use go_execution_abci.Rpc.Events.Own.{own_calls, own_calls-length, pick_lem}
use go_execution_abci.Rpc.Events.Running.{
  Stage, counted, checked, Step, begins, goes_on, unsubscribes, leaves, Running, pick, begun,
  passed, advanced, run, run_all, AtMost,
}

-- What is relied on of the bus, whether a call returns or fails: a subscription adds at most one client,
-- and at most one subscription to that of its client; the end of subscriptions adds nothing.
pub record IsBus {B Q : Type 0} (bus : EventBus B Q) : Type 0 where
  pub subscribe_clients :
      (addr : String) (q : Q) (n : ℕ) (b : B)
      → bus.num_clients (bus.subscribe addr q n b).1 ≤ bus.num_clients b + 1
  pub subscribe_own :
      (addr : String) (q : Q) (n : ℕ) (b : B)
      → bus.num_client_subscriptions (bus.subscribe addr q n b).1 addr
        ≤ bus.num_client_subscriptions b addr + 1
  pub subscribe_other :
      (addr a : String) (q : Q) (n : ℕ) (b : B)
      → (addr == a) ≡ false
      → bus.num_client_subscriptions (bus.subscribe addr q n b).1 a
        ≤ bus.num_client_subscriptions b a
  pub unsubscribe_le :
      (addr a : String) (q : Q) (b : B)
      → (bus.num_clients (bus.unsubscribe addr q b).1 ≤ bus.num_clients b)
        × (bus.num_client_subscriptions (bus.unsubscribe addr q b).1 a
            ≤ bus.num_client_subscriptions b a)
  pub unsubscribe_all_le :
      (addr a : String) (b : B)
      → (bus.num_clients (bus.unsubscribe_all addr b).1 ≤ bus.num_clients b)
        × (bus.num_client_subscriptions (bus.unsubscribe_all addr b).1 a
            ≤ bus.num_client_subscriptions b a)

module _ {B Q : Type 0} (bus : EventBus B Q) (limits : Limits) where
  AtMost-now :
      (k : ℕ) (steps : List Step) (s : Running B Q)
      → AtMost bus limits k steps s
      → length s.under_way ≤ k + 1
  AtMost-now k [] s h = h
  AtMost-now k (x ∷ rest) s (h, _) = h

  -- The limits with `k` added, of which the calls under way use up a part.
  record IsWithin (k : ℕ) (s : Running B Q) : Type 0 where
    pub clients :
        bus.num_clients s.events + length s.under_way ≤ limits.max_subscription_clients + k
    pub subscriptions :
        (a : String)
        → bus.num_client_subscriptions s.events a + own_calls a s.under_way
          ≤ limits.max_subscriptions_per_client + k

  module _ (law : IsBus bus) (k : ℕ) where
    begun-IsWithin :
        (addr : String) (query : Bytes) (s : Running B Q) (r : Outcome EventError (Unit {0}))
        → (check_clients bus limits s.events).0 ≡ r
        → length (begun bus limits addr query r s).under_way ≤ k + 1
        → IsWithin k s
        → IsWithin k (begun bus limits addr query r s)
    unfolding check_clients
    begun-IsWithin addr query s (ok u) e few w =
        let room = ltb→lt _ _ (ensure-eq-ok _ _ e) in
        record { clients = omega arith; subscriptions = w.subscriptions }
    begun-IsWithin addr query s (err x) e few w = w
    begun-IsWithin addr query s panic e few w = w

    -- What a call that was taken out of those under way may use up.
    record Without (c : String × Stage Q) (s : Running B Q) : Type 0 where
      pub clients :
          bus.num_clients s.events + suc (length s.under_way) ≤ limits.max_subscription_clients + k
      pub subscriptions :
          (a : String)
          → bus.num_client_subscriptions s.events a
              + (own_calls a (c ∷ []) + own_calls a s.under_way)
            ≤ limits.max_subscriptions_per_client + k

    drop-IsWithin : (c : String × Stage Q) (s : Running B Q) → Without c s → IsWithin k s
    drop-IsWithin c s w = record {
      clients = omega (arith, w.clients);
      subscriptions = λ a. omega (arith, w.subscriptions a);
    }

    check_query-room :
        (addr : String) (query : Bytes) (b : B) (q : Q)
        → (check_query bus limits addr query b).0 ≡ ok q
        → bus.num_client_subscriptions b addr < limits.max_subscriptions_per_client
    unfolding check_query
    check_query-room addr query b q h =
        elim (Bool-cases
          (ltb (bus.num_client_subscriptions b addr) limits.max_subscriptions_per_client)) [
            | inl e ↦ ltb→lt _ _ e
            | inr e ↦ cc (rw e at h)
          ]

    passed-IsWithin :
        (addr : String) (query : Bytes) (s : Running B Q) (r : Outcome EventError Q)
        → (check_query bus limits addr query s.events).0 ≡ r
        → length s.under_way ≤ k
        → Without (addr, counted query) s
        → IsWithin k (passed bus limits addr r s)
    passed-IsWithin addr query s (ok q) e few w =
        let room = check_query-room addr query s.events q e in
        record {
          clients = w.clients;
          subscriptions = λ a. elim (Bool-cases (addr == a)) [
            | inl same ↦
                subst
                  (λ b.
                    bus.num_client_subscriptions s.events b
                      + ((if addr == b then 1 else 0) + own_calls b s.under_way)
                    ≤ limits.max_subscriptions_per_client + k)
                  ((string_eq.beq_iff addr a).0 same)
                  (ground
                    (arith, own_calls-length addr s.under_way, string_eq.beq_iff addr addr, room))
            | inr other ↦ rw other (w.subscriptions a)
          ];
        }
    passed-IsWithin addr query s (err x) e few w = drop-IsWithin (addr, counted query) s w
    passed-IsWithin addr query s panic e few w = drop-IsWithin (addr, counted query) s w

    registered-IsWithin :
        (addr : String) (q : Q) (s : Running B Q)
        → Without (addr, checked q) s
        → IsWithin k (record s { events = (register bus limits addr q s.events).1 })
    unfolding register
    registered-IsWithin addr q s w = record {
      clients =
          omega (
            arith,
            law.subscribe_clients addr q limits.subscription_buffer_size s.events,
            w.clients,
          );
      subscriptions = λ a. elim (Bool-cases (addr == a)) [
        | inl same ↦
            subst
              (λ b.
                bus.num_client_subscriptions
                    (bus.subscribe addr q limits.subscription_buffer_size s.events).1 b
                  + own_calls b s.under_way
                ≤ limits.max_subscriptions_per_client + k)
              ((string_eq.beq_iff addr a).0 same)
              (omega (
                arith,
                law.subscribe_own addr q limits.subscription_buffer_size s.events,
                own_room addr q s w,
              ))
        | inr other ↦ omega (
          arith,
          law.subscribe_other addr a q limits.subscription_buffer_size s.events other,
          w.subscriptions a,
        )
      ];
    }
      where
        own_room :
            (b : String) (p : Q) (t : Running B Q)
            → Without (b, checked p) t
            → bus.num_client_subscriptions t.events b + (1 + own_calls b t.under_way)
              ≤ limits.max_subscriptions_per_client + k
        own_room b p t v = ground (arith, v.subscriptions b, string_eq.beq_iff b b)

    advanced-IsWithin :
        (c : String × Stage Q) (s : Running B Q)
        → length s.under_way ≤ k
        → Without c s
        → IsWithin k (advanced bus limits c s)
    advanced-IsWithin (addr, counted query) s few w =
        passed-IsWithin addr query s (check_query bus limits addr query s.events).0 refl few w
    advanced-IsWithin (addr, checked q) s few w = registered-IsWithin addr q s w

    le-IsWithin :
        (s : Running B Q) (b : B)
        → ((a : String)
            → (bus.num_clients b ≤ bus.num_clients s.events)
              × (bus.num_client_subscriptions b a ≤ bus.num_client_subscriptions s.events a))
        → IsWithin k s
        → IsWithin k (record s { events = b })
    le-IsWithin s b h w = record {
      clients = omega (arith, (h "").0, w.clients);
      subscriptions = λ a. omega (arith, (h a).1, w.subscriptions a);
    }

    run-IsWithin :
        (x : Step) (s : Running B Q)
        → length s.under_way ≤ k + 1
        → length (run bus limits x s).under_way ≤ k + 1
        → IsWithin k s
        → IsWithin k (run bus limits x s)
    unfolding run unsubscribe unsubscribe_all
    run-IsWithin (begins addr query) s few still w =
        begun-IsWithin addr query s (check_clients bus limits s.events).0 refl still w
    run-IsWithin (goes_on i) s few still w = elim (Option-cases (pick i s.under_way)) [
      | inl e ↦ rw (e, run) w
      | inr ((c, rest), e) ↦
          let (size, own) = pick_lem i s.under_way c rest e in
          rw (e, run)
            (advanced-IsWithin c (record s { under_way = rest }) (omega arith)
              record {
                clients = omega (arith, size, w.clients);
                subscriptions = λ a. omega (arith, own a, w.subscriptions a);
              })
    ]
    run-IsWithin (unsubscribes addr query) s few still w =
        elim (Option-cases (bus.new_query query)) [
          | inl e ↦ rw e w
          | inr (q, e) ↦ rw e (
              le-IsWithin s (bus.unsubscribe addr q s.events).1
                (λ a. law.unsubscribe_le addr a q s.events) w)
        ]
    run-IsWithin (leaves addr) s few still w =
        le-IsWithin s (bus.unsubscribe_all addr s.events).1
          (λ a. law.unsubscribe_all_le addr a s.events) w

    all-IsWithin :
        (steps : List Step) (s : Running B Q)
        → AtMost bus limits k steps s
        → IsWithin k s
        → IsWithin k (run_all bus limits steps s)
    unfolding run_all
    all-IsWithin [] s few w = w
    all-IsWithin (x ∷ steps) s (few, later) w =
        all-IsWithin steps (run bus limits x s) later
          (run-IsWithin x s few (AtMost-now k steps (run bus limits x s) later) w)

    -- Where the clients and the subscriptions of each are within the limits, and no Subscribe is under
    -- way: through any steps of Subscribe, Unsubscribe and UnsubscribeAll of any connections, in any
    -- order, whether calls return or fail, they exceed the limits by at most the number of other calls of
    -- Subscribe that are ever under way at once. So calls of Subscribe one after the other keep the
    -- limits.
    pub run_all-within :
        (steps : List Step) (b : B)
        → bus.num_clients b ≤ limits.max_subscription_clients
        → ((a : String) → bus.num_client_subscriptions b a ≤ limits.max_subscriptions_per_client)
        → AtMost bus limits k steps (record { events = b; under_way = [] })
        → (bus.num_clients (run_all bus limits steps (record { events = b; under_way = [] })).events
            ≤ limits.max_subscription_clients + k)
          × ((a : String)
              → bus.num_client_subscriptions
                  (run_all bus limits steps (record { events = b; under_way = [] })).events
                  a
                ≤ limits.max_subscriptions_per_client + k)
    run_all-within steps b clients subscriptions few =
        let w =
          all-IsWithin steps (record { events = b; under_way = [] }) few
            record { clients = omega arith; subscriptions = λ a. omega (arith, subscriptions a) } in
        (omega (arith, w.clients), λ a. omega (arith, w.subscriptions a))
