-- ===== src/Staking.antt =====
-- modules/staking/keeper: the staking keeper that keeps the validators' updates from CometBFT after the
-- genesis block. The staking keeper of the SDK, with its state S, is a parameter.
use go_execution_abci.Prelude.{List, [], if◌then◌else◌, ◌==◌}
use go_execution_abci.Prelude.Int.{ℤ, pos, ℤ_eq}
use go_execution_abci.Prelude.Exec.{ok, Exec, ◌>>=◌, pure, reads}

unfoldable pub apply_and_return_validator_set_updates :
    {E S U : Type 0} → ℤ → Exec E S (List U) → Exec E S (List U)
apply_and_return_validator_set_updates block_height wrapped = do
  val_updates ← wrapped
  reads (λ _. ok (if block_height == pos 0 then val_updates else []))

-- Slash and SlashWithInfractionReason, which have the same body, slash nothing.
unfoldable pub slash : {E S : Type 0} → Exec E S ℤ
slash = pure (pos 0)

-- Jail and Unjail.
unfoldable pub jail : {E S : Type 0} → Exec E S (Unit {0})
jail = pure tt
