-- ===== src/Network/Query.antt =====
-- modules/network/keeper/grpc_query.go: the queries. A request is `none` for a nil pointer.
pub mod Agreement
use go_execution_abci.Prelude.{
  ℕ, ◌+◌, ◌-◌, ◌*◌, ◌%◌, ◌^◌, String, Bool, true, false, Option, none, some, List, [],
}
use go_execution_abci.Prelude.Int.{ℤ, to_i64, u64_mod}
use go_execution_abci.Prelude.Exec.{Outcome, ok, err, panic, then_ok, or_err}
use go_execution_abci.Network.Bitmap.{Bytes, pop_count}
use go_execution_abci.Network.Types.{
  Error, invalid_argument, status_not_found, Params, AttestationBitmap, ValidatorIndex, Env, State,
}
use go_execution_abci.Network.Keeper.{
  get_params, get_validator_index, get_validator_power, get_attestation_bitmap, get_epoch_bitmap,
  calculate_voted_power, get_total_power, is_soft_confirmed,
}
use go_execution_abci.Network.MsgServer.{count_bonded}

pub record EpochInfo : Type 0 where
  pub epoch : ℕ
  pub start_height : ℤ
  pub end_height : ℤ
  pub participation_bitmap : Bytes
  pub active_validators : ℕ
  pub participating_validators : ℕ

pub record SoftConfirmationStatus : Type 0 where
  pub is_soft_confirmed : Bool
  pub voted_power : ℕ
  pub total_power : ℕ
  pub quorum_fraction : String

unfoldable pub query_params : Option (Unit {0}) → State → Outcome Error Params
query_params req s = then_ok (or_err req invalid_argument) λ _. ok (get_params s)

unfoldable pub query_attestation_bitmap : Env → Option ℤ → State → Outcome Error AttestationBitmap
query_attestation_bitmap env req s = then_ok (or_err req invalid_argument) λ height.
    then_ok (or_err (get_attestation_bitmap s height) status_not_found) λ bitmap.
      then_ok (calculate_voted_power bitmap s) λ voted_power.
        then_ok (get_total_power env) λ total_power.
          then_ok (is_soft_confirmed env height s) λ soft_confirmed. ok (record {
            height = height;
            bitmap = bitmap;
            voted_power = voted_power;
            total_power = total_power;
            soft_confirmed = soft_confirmed;
          })

-- The heights of an epoch, in uint64 arithmetic and then as int64.
unfoldable pub epoch_start : ℕ → ℕ → ℤ
unfolding to_i64
epoch_start epoch epoch_length = to_i64 (epoch * epoch_length % u64_mod)

unfoldable pub epoch_end : ℕ → ℕ → ℤ
unfolding to_i64
epoch_end epoch epoch_length =
    to_i64 (((epoch + 1) % u64_mod * epoch_length % u64_mod + u64_mod - 1) % u64_mod)

unfoldable pub query_epoch_info : Env → Option ℕ → State → Outcome Error EpochInfo
query_epoch_info env req s = then_ok (or_err req invalid_argument) λ epoch.
    let length = (get_params s).epoch_length in
    elim (get_epoch_bitmap s epoch) [
      | none ↦ ok (record {
        epoch = epoch;
        start_height = epoch_start epoch length;
        end_height = epoch_end epoch length;
        participation_bitmap = [];
        active_validators = 0;
        participating_validators = 0;
      })
      | some bitmap ↦ then_ok env.get_last_validators λ validators. ok (record {
        epoch = epoch;
        start_height = epoch_start epoch length;
        end_height = epoch_end epoch length;
        participation_bitmap = bitmap;
        active_validators = count_bonded 0 validators;
        participating_validators = pop_count bitmap;
      })
    ]

unfoldable pub query_validator_index : Option String → State → Outcome Error ValidatorIndex
query_validator_index req s = then_ok (or_err req invalid_argument) λ address.
    then_ok (or_err (get_validator_index s address) status_not_found) λ index.
      then_ok (get_validator_power s index)
        λ power. ok (record { address = address; index = index; power = power })

abbrev voted_power_or_zero : Option Bytes → State → Outcome Error ℕ
voted_power_or_zero none s = ok 0
voted_power_or_zero (some bitmap) s = calculate_voted_power bitmap s

unfoldable pub query_soft_confirmation_status :
    Env → Option ℤ → State → Outcome Error SoftConfirmationStatus
query_soft_confirmation_status env req s = then_ok (or_err req invalid_argument) λ height.
    then_ok (is_soft_confirmed env height s) λ confirmed.
      then_ok (get_total_power env) λ total_power.
        then_ok (voted_power_or_zero (get_attestation_bitmap s height) s) λ voted_power.
          ok (record {
            is_soft_confirmed = confirmed;
            voted_power = voted_power;
            total_power = total_power;
            quorum_fraction = (get_params s).quorum_fraction;
          })
