-- ===== src/Rpc/Events/Running.antt =====
-- pkg/rpc/core/events.go: the calls of the connections, whose steps come in any order.
use go_execution_abci.Prelude.{
  ℕ, zero, suc, ◌+◌, ◌≤◌, String, Option, none, some, List, [], ◌∷◌, length, string_eq,
}
use go_execution_abci.Prelude.Exec.{Outcome, ok, err, panic}
use go_execution_abci.Compat.Types.{Bytes}
use go_execution_abci.Rpc.Events.{
  EventError, Limits, EventBus, check_clients, check_query, register, unsubscribe, unsubscribe_all,
}

-- A call of Subscribe that is under way: behind the count of the clients, with its query, or behind all
-- checks, with the parsed query.
pub data Stage (Q : Type 0) : Type 0 where
  counted : Bytes → Stage Q
  checked : Q → Stage Q

-- The steps of the calls of clients, in the order in which they happen: a Subscribe that counts the
-- clients, the one under way at this place that goes on by its next step, and the two other calls.
pub data Step : Type 0 where
  begins : String → Bytes → Step
  goes_on : ℕ → Step
  unsubscribes : String → Bytes → Step
  leaves : String → Step

-- The bus, and the calls of Subscribe that are under way.
pub record Running (B Q : Type 0) : Type 0 where
  pub events : B
  pub under_way : List (String × Stage Q)

-- The entry at a place, and the others.
unfoldable pub pick : {A : Type 0} → ℕ → List A → Option (A × List A)
pick i [] = none
pick zero (x ∷ xs) = some (x, xs)
pick (suc i) (x ∷ xs) = elim (pick i xs) [ none ↦ none | some r ↦ some (r.0, x ∷ r.1) ]

module _ {B Q : Type 0} (bus : EventBus B Q) (limits : Limits) where
  abbrev pub begun : String → Bytes → Outcome EventError (Unit {0}) → Running B Q → Running B Q
  begun addr query (ok _) s = record s { under_way = (addr, counted query) ∷ s.under_way }
  begun addr query (err e) s = s
  begun addr query panic s = s

  abbrev pub passed : String → Outcome EventError Q → Running B Q → Running B Q
  passed addr (ok q) s = record s { under_way = (addr, checked q) ∷ s.under_way }
  passed addr (err e) s = s
  passed addr panic s = s

  abbrev pub advanced : String × Stage Q → Running B Q → Running B Q
  advanced (addr, counted query) s = passed addr (check_query bus limits addr query s.events).0 s
  advanced (addr, checked q) s = record s { events = (register bus limits addr q s.events).1 }

  unfoldable pub run : Step → Running B Q → Running B Q
  unfolding check_clients check_query register unsubscribe unsubscribe_all pick
  run (begins addr query) s = begun addr query (check_clients bus limits s.events).0 s
  run (goes_on i) s = elim (pick i s.under_way) [
    | none ↦ s
    | some r ↦ advanced r.0 (record s { under_way = r.1 })
  ]
  run (unsubscribes addr query) s = record s { events = (unsubscribe bus addr query s.events).1 }
  run (leaves addr) s = record s { events = (unsubscribe_all bus addr s.events).1 }

  unfoldable pub run_all : List Step → Running B Q → Running B Q
  unfolding run
  run_all [] s = s
  run_all (x ∷ rest) s = run_all rest (run x s)

  -- At no time are there more than `k` other calls of Subscribe beside one that is under way.
  abbrev pub AtMost : ℕ → List Step → Running B Q → Type 0
  AtMost k [] s = length s.under_way ≤ k + 1
  AtMost k (x ∷ rest) s = (length s.under_way ≤ k + 1) × AtMost k rest (run x s)
