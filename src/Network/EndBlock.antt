-- ===== src/Network/EndBlock.antt =====
-- modules/network/keeper/abci.go: what the module does at the end of each block.
pub mod Checkpoint
pub mod Schedule
pub mod Progress
use go_execution_abci.Prelude.{
  ℕ, ◌+◌, ◌/◌, String, Bool, true, false, not, Option, none, some, List, [], ◌∷◌, ltb, ◌==◌, nat_eq,
  if◌then◌else◌,
}
use go_execution_abci.Prelude.Int.{ℤ, pos, ◌+ℤ◌, to_u64, ℤ_eq}
use go_execution_abci.Prelude.Map
use go_execution_abci.Prelude.Exec.{
  Outcome, ok, err, panic, then_ok, or_err, Exec, ◌>>=◌, ◌>>◌, pure, reads, gets, modify,
}
use go_execution_abci.Network.Bitmap.{Bytes, pop_count}
use go_execution_abci.Network.Types.{Error, invalid_decimal, AttestationBitmap, Event, Env, State}
use go_execution_abci.Network.Keeper.{
  get_params, get_attestation_bitmap, get_epoch_bitmap, calculate_voted_power, get_total_power,
  check_quorum, get_current_epoch, is_checkpoint_height, build_validator_index_map,
}
use go_execution_abci.Network.MsgServer.{emit_event, count_bonded}

-- emitCheckpointHashes.
unfoldable pub checkpoint_event : Env → ℤ → Bytes → Bytes → Bool → Event
checkpoint_event env height validator_hash commit_hash soft_confirmed = record {
  kind = "checkpoint";
  attributes =
      ("height", env.int_string height)
      ∷ ("validator_hash", env.encode_base64 validator_hash)
      ∷ ("commit_hash", env.encode_base64 commit_hash)
      ∷ ("soft_confirmed", if soft_confirmed then "true" else "false")
      ∷ [];
}

unfoldable pub set_stored_attestation_info : ℤ → AttestationBitmap → State → State
set_stored_attestation_info height info s = record s {
  stored_attestation_info = Map.put s.stored_attestation_info height info;
}

unfoldable pub attestation_info : ℤ → Bytes → ℕ → ℕ → Bool → AttestationBitmap
attestation_info height bitmap voted_power total_power soft_confirmed = record {
  height = height;
  bitmap = bitmap;
  voted_power = voted_power;
  total_power = total_power;
  soft_confirmed = soft_confirmed;
}

-- processCheckpoint after the test on the bitmap.
unfoldable pub checkpoint_bitmap : Env → ℤ → Bytes → Exec Error State (Unit {0})
checkpoint_bitmap env height bitmap = do
  voted_power ← reads (calculate_voted_power bitmap)
  total_power ← reads (λ _. get_total_power env)
  soft_confirmed ← reads (check_quorum env voted_power total_power)
  modify (
      set_stored_attestation_info height
        (attestation_info height bitmap voted_power total_power soft_confirmed))
  modify (
      emit_event (
        checkpoint_event env height (env.sha256 bitmap) (env.sha256 env.placeholder)
          soft_confirmed))

unfoldable pub process_checkpoint : Env → ℤ → Exec Error State (Unit {0})
process_checkpoint env height s = elim (get_attestation_bitmap s height) [
  | none ↦ (ok tt, s)
  | some bitmap ↦ checkpoint_bitmap env height bitmap s
]

-- The participation test of an epoch that has a bitmap. What follows a low rate is a log line only
-- (ejectLowParticipants), so its outcome is the test itself: `true` if participation is low.
unfoldable pub low_participation : Env → String → Bytes → ℕ → Outcome Error Bool
low_participation env min_participation epoch_bitmap bonded =
    if ltb 0 bonded
    then (then_ok (or_err (env.new_dec_from_str min_participation) invalid_decimal) λ required.
        ok (
          env.lt (env.quo_int64 (env.new_dec (pos (pop_count epoch_bitmap))) (pos bonded))
            required))
    else ok false

unfoldable pub check_participation : Env → ℕ → State → Outcome Error Bool
check_participation env epoch s = elim (get_epoch_bitmap s epoch) [
  | none ↦ ok false
  | some epoch_bitmap ↦ then_ok env.get_last_validators λ validators.
      low_participation env (get_params s).min_participation epoch_bitmap
        (count_bonded 0 validators)
]

unfoldable pub process_epoch_end : Env → ℕ → Exec Error State (Unit {0})
process_epoch_end env epoch = do
  reads (check_participation env epoch)
  build_validator_index_map env

-- `uint64(nextHeight) / params.EpochLength`.
unfoldable pub next_epoch : ℤ → State → Outcome Error ℕ
unfolding get_current_epoch
next_epoch height s = get_current_epoch (height +ℤ pos 1) s

unfoldable pub end_blocker : Env → ℤ → Exec Error State (Unit {0})
end_blocker env height = do
  is_checkpoint ← reads (is_checkpoint_height height)
  if is_checkpoint then process_checkpoint env height else pure tt
  epoch ← reads (get_current_epoch height)
  next ← reads (next_epoch height)
  if epoch == next then pure tt else process_epoch_end env epoch
