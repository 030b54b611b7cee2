-- ===== src/Manager/Query.antt =====
-- modules/rollkitmngr/keeper/grpc_query.go: the queries. The staking keeper's answer to GetLastValidators is
-- given.
use go_execution_abci.Prelude.{ℕ, Bool, true, false, Option, List, map}
use go_execution_abci.Prelude.Int.{ℤ}
use go_execution_abci.Prelude.Exec.{Outcome, err, then_ok, ok, or_err}
use go_execution_abci.Manager.Types.{Error, logic, Validator, Attester, Sequencer, State}
use go_execution_abci.Manager.Keeper.{is_migrating}

module _ {K : Type 0} where
  abbrev attester_of : Validator K → Attester K
  attester_of val = record { name = val.moniker; consensus_pubkey = val.consensus_pubkey }

  unfoldable pub query_attesters : Option (List (Validator K)) → Outcome Error (List (Attester K))
  query_attesters last_validators =
      then_ok (or_err last_validators logic) λ vals. ok (map attester_of vals)

  -- The first and the last height, and whether the migration is in progress.
  unfoldable pub query_is_migrating : Bool → ℤ → State K → ℕ × ℕ × Bool
  unfolding is_migrating
  query_is_migrating ibc height s = is_migrating ibc height s

  unfoldable pub query_sequencer : Bool → ℤ → State K → Outcome Error (Sequencer K)
  unfolding is_migrating
  query_sequencer ibc height s = elim (is_migrating ibc height s).2 [
    | true ↦ err logic
    | false ↦ or_err s.sequencer logic
  ]
