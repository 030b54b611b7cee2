-- ===== src/Network/MsgServer/Governance.antt =====
-- Changes of the parameters.
use go_execution_abci.Prelude.{◌≡◌, ◌↔◌, arith, string_eq}
use go_execution_abci.Prelude.Exec.{ok, err}
use go_execution_abci.Network.Types.{Error, MsgUpdateParams, Env, State}
use go_execution_abci.Network.Types.Validate.{validate_params_iff, IsValidParams}
use go_execution_abci.Network.Keeper.{set_params, get_params}
use go_execution_abci.Network.MsgServer.{emit_event, update_params}

-- UpdateParams succeeds exactly for the authority and for parameters that are valid; these are then the
-- parameters. When it returns an error the state is as it was.
update_params_lem :
    (env : Env) (msg : MsgUpdateParams) (s : State)
    → (((update_params env msg s).0 ≡ ok tt)
        ↔ ((env.authority ≡ msg.authority) × IsValidParams env msg.params))
      × (((update_params env msg s).0 ≡ ok tt)
          → get_params (update_params env msg s).1 ≡ msg.params)
      × ((e : Error) → (update_params env msg s).0 ≡ err e → (update_params env msg s).1 ≡ s)
unfolding update_params set_params get_params emit_event
update_params_lem env msg s = (
  (
    λ h. (
      ground (arith, string_eq.beq_iff env.authority msg.authority),
      (validate_params_iff env msg.params).0 (ground arith),
    ),
    λ (who, valid). ground (
      arith,
      string_eq.beq_iff env.authority msg.authority,
      (validate_params_iff env msg.params).1 valid,
    ),
  ),
  ground arith,
  λ e h. ground arith,
)
