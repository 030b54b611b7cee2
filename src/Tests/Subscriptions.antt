-- ===== src/Tests/Subscriptions.antt =====
-- Two clients of an event bus with room for one client and one subscription.
use go_execution_abci.Prelude.{
  ℕ, ◌+◌, ◌-◌, ◌≤◌, ◌≡◌, refl, ◌⊎◌, String, Bool, true, false, ◌==◌, nat_eq, string_eq,
  if◌then◌else◌, some, List, [], ◌∷◌, ◌++◌, arith,
}
use go_execution_abci.Prelude.Exec.{ok}
use go_execution_abci.Compat.Types.{Bytes}
use go_execution_abci.Rpc.Events.{
  check_clients, check_query, register, Limits, EventBus, Received, message, canceled, failed,
  forward,
}
use go_execution_abci.Rpc.Events.Running.{
  Step, begins, goes_on, Running, pick, run, run_all, AtMost,
}
use go_execution_abci.Rpc.Events.Bounds.{IsBus, run_all-within}
use go_execution_abci.Rpc.Events.Forward.{AllGoOn, sent, last_sent, Ended, forward_lem}

-- The clients' number, and the number of subscriptions of each.
pub record Table : Type 0 where
  pub clients : ℕ
  pub of : String → ℕ

abbrev table_bus : EventBus Table Bytes
table_bus = record {
  num_clients = λ t. t.clients;
  num_client_subscriptions = λ t a. t.of a;
  subscribe = λ addr q n t. (
    ok tt,
    record {
      clients = if t.of addr == 0 then t.clients + 1 else t.clients;
      of = λ a. if addr == a then t.of a + 1 else t.of a;
    },
  );
  unsubscribe =
      λ addr q t. (ok tt, record t { of = λ a. if addr == a then t.of a - 1 else t.of a });
  unsubscribe_all = λ addr t. (ok tt, record t { of = λ a. if addr == a then 0 else t.of a });
  new_query = λ q. some q;
}

one_more : (b : Bool) (n : ℕ) → (if b then n + 1 else n) ≤ n + 1
one_more b n = ground arith

less : (b : Bool) (n m : ℕ) → m ≤ n → (if b then m else n) ≤ n
less b n m h = ground arith

table_bus-IsBus : IsBus table_bus
table_bus-IsBus = record {
  subscribe_clients = λ addr q n t. one_more (t.of addr == 0) t.clients;
  subscribe_own = λ addr q n t. one_more (addr == addr) (t.of addr);
  subscribe_other = λ addr a q n t other. rw other (omega arith);
  unsubscribe_le =
      λ addr a q t. (omega arith, less (addr == a) (t.of a) (t.of a - 1) (omega arith));
  unsubscribe_all_le = λ addr a t. (omega arith, less (addr == a) (t.of a) 0 (omega arith));
}

abbrev limits : Limits
limits = record {
  max_subscription_clients = 1;
  max_subscriptions_per_client = 1;
  subscription_buffer_size = 10;
  close_on_slow_client = true;
}

abbrev nobody : Table
nobody = record { clients = 0; of = λ a. 0 }

-- Ann and Bert both count the clients before either of them subscribes.
abbrev steps : List Step
steps =
    begins "ann" (1 ∷ [])
    ∷ begins "bert" (1 ∷ [])
    ∷ goes_on 0
    ∷ goes_on 0
    ∷ goes_on 0
    ∷ goes_on 0
    ∷ []

abbrev after : Running Table Bytes
after = run_all table_bus limits steps (record { events = nobody; under_way = [] })

few : AtMost table_bus limits 1 steps (record { events = nobody; under_way = [] })
unfolding run check_clients check_query register pick
few = (
  omega arith,
  (omega arith, (omega arith, (omega arith, (omega arith, (omega arith, omega arith))))),
)

-- Two clients, where the limit is one.
both : after.events.clients ≡ 2
unfolding run_all run check_clients check_query register pick
both = refl

run_all-within_example :
    (table_bus.num_clients after.events ≤ 1 + 1)
    × ((a : String) → table_bus.num_client_subscriptions after.events a ≤ 1 + 1)
run_all-within_example =
    run_all-within table_bus limits table_bus-IsBus 1 steps nobody (omega arith) (λ a. omega arith)
      few

abbrev inputs : List (Received ℕ)
inputs = message 1 true ∷ message 2 false ∷ message 3 true ∷ canceled (failed "full") ∷ []

forward_lem_example :
    (AllGoOn true inputs × (forward true inputs ≡ (sent true inputs, true)))
    ⊎ ((e : Ended true inputs) × (forward true inputs
          ≡ (sent true e.before ++ last_sent true e.last, false)))
forward_lem_example = forward_lem true inputs
