-- ===== src/Rpc/Events.antt =====
-- pkg/rpc/core/events.go: subscriptions to the event bus over a WebSocket.
pub mod Forward
pub mod Running
pub mod Own
pub mod Bounds
use go_execution_abci.Prelude.{
  ℕ, ◌≤◌, ◌+◌, ◌≡◌, ◌≢◌, String, Bool, true, false, not, leb, ltb, if◌then◌else◌, Option, none,
  some, List, [], ◌∷◌, length,
}
use go_execution_abci.Prelude.Exec.{Outcome, ok, err, Exec, or_err, ◌>>=◌, ◌>>◌, reads, gets, guard}
use go_execution_abci.Compat.Types.{Bytes}

pub data EventError : Type 0 where
  too_many_clients too_many_subscriptions query_too_long bad_query bus : EventError

-- The limits of the RPC configuration.
pub record Limits : Type 0 where
  pub max_subscription_clients : ℕ
  pub max_subscriptions_per_client : ℕ
  pub subscription_buffer_size : ℕ
  pub close_on_slow_client : Bool

abbrev pub max_query_length : ℕ
max_query_length = 512

-- The event bus of CometBFT in a state of type B, with queries of type Q, and the query's parser.
pub record EventBus (B Q : Type 0) : Type 0 where
  pub num_clients : B → ℕ
  pub num_client_subscriptions : B → String → ℕ
  pub subscribe : String → Q → ℕ → Exec EventError B (Unit {0})
  pub unsubscribe : String → Q → Exec EventError B (Unit {0})
  pub unsubscribe_all : String → Exec EventError B (Unit {0})
  pub new_query : Bytes → Option Q

module _ {B Q : Type 0} (event_bus : EventBus B Q) (limits : Limits) where
  -- The first check of Subscribe. No lock is held from it to the next checks, nor from these to the
  -- subscription, so that the calls of other connections may come between.
  unfoldable pub check_clients : Exec EventError B (Unit {0})
  check_clients = do
    clients ← gets event_bus.num_clients
    guard (ltb clients limits.max_subscription_clients) too_many_clients

  unfoldable pub check_query : String → Bytes → Exec EventError B Q
  check_query addr query = do
    subscriptions ← gets (λ b. event_bus.num_client_subscriptions b addr)
    guard (ltb subscriptions limits.max_subscriptions_per_client) too_many_subscriptions
    guard (leb (length query) max_query_length) query_too_long
    reads (λ _. or_err (event_bus.new_query query) bad_query)

  unfoldable pub register : String → Q → Exec EventError B (Unit {0})
  register addr q = event_bus.subscribe addr q limits.subscription_buffer_size

  -- Subscribe up to the start of the goroutine, which `forward` is, where no other call comes between.
  unfoldable pub subscribe : String → Bytes → Exec EventError B (Unit {0})
  unfolding check_clients check_query register
  subscribe addr query = do check_clients; q ← check_query addr query; register addr q

module _ {B Q : Type 0} (event_bus : EventBus B Q) where
  unfoldable pub unsubscribe : String → Bytes → Exec EventError B (Unit {0})
  unsubscribe addr query = do
    q ← reads (λ _. or_err (event_bus.new_query query) bad_query)
    event_bus.unsubscribe addr q

  unfoldable pub unsubscribe_all : String → Exec EventError B (Unit {0})
  unsubscribe_all addr = event_bus.unsubscribe_all addr

-- Why a subscription was canceled: by the client itself, by an error, or without one.
pub data Reason : Type 0 where
  unsubscribed no_error : Reason
  failed : String → Reason

-- What the select of the goroutine receives: a message, and whether its response could be written, or
-- the end of the subscription.
pub data Received (M : Type 0) : Type 0 where
  message : M → Bool → Received M
  canceled : Reason → Received M

-- The responses that the goroutine writes, or tries to write, to the connection.
pub data Response (M : Type 0) : Type 0 where
  event : M → Response M
  slow_client : Response M
  exited : Response M
  subscription_failed : String → Response M

module _ {M : Type 0} where
  unfoldable pub closing : Reason → List (Response M)
  closing unsubscribed = []
  closing no_error = exited ∷ []
  closing (failed reason) = subscription_failed reason ∷ []

  -- The loop of the goroutine over what it receives; the second part is whether it still runs.
  unfoldable pub forward : Bool → List (Received M) → List (Response M) × Bool
  unfolding closing
  forward close_if_slow [] = ([], true)
  forward close_if_slow (message m written ∷ rest) =
      let later = forward close_if_slow rest in
      if written
      then (event m ∷ later.0, later.1)
      else if close_if_slow
      then (event m ∷ slow_client ∷ [], false)
      else (event m ∷ later.0, later.1)
  forward close_if_slow (canceled reason ∷ rest) = (closing reason, false)
