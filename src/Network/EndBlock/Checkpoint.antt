-- ===== src/Network/EndBlock/Checkpoint.antt =====
-- What a checkpoint stores, and when it fails.
use go_execution_abci.Prelude.{
  ℕ, ◌*◌, ◌%◌, ◌<◌, ◌≡◌, refl, sym, ◌∙◌, Bool, true, none, some, arith, ◌==◌, nat_eq, if◌then◌else◌,
  length,
}
use go_execution_abci.Prelude.Int.{ℤ, pos, ℤ_eq, u16_mod}
use go_execution_abci.Prelude.Map
use go_execution_abci.Prelude.Exec.{ok, err}
use go_execution_abci.Network.Bitmap.{Bytes, is_set}
use go_execution_abci.Network.Types.{not_found, AttestationBitmap, Env, State}
use go_execution_abci.Network.Keeper.{
  get_attestation_bitmap, calculate_voted_power, get_total_power, check_quorum, is_soft_confirmed,
  is_checkpoint_height,
}
use go_execution_abci.Network.Keeper.VotedPower.{calculate_voted_power-missing, voted_power_frame}
use go_execution_abci.Network.MsgServer.{emit_event}
use go_execution_abci.Network.EndBlock.{
  checkpoint_event, attestation_info, set_stored_attestation_info, checkpoint_bitmap,
  process_checkpoint, end_blocker,
}

-- IsSoftConfirmed depends on the bitmap of the height, the powers and the parameters only.
soft_confirmed-stored :
    (env : Env) (height : ℤ) (bitmap : Bytes) (s : State) (voted total : ℕ)
    → get_attestation_bitmap s height ≡ some bitmap
    → calculate_voted_power bitmap s ≡ ok voted
    → get_total_power env ≡ ok total
    → is_soft_confirmed env height s ≡ check_quorum env voted total s
unfolding is_soft_confirmed
soft_confirmed-stored env height bitmap s voted total found power sum =
    rw (found, is_soft_confirmed) (rw (power, sum))

-- A checkpoint of a height with a bitmap, whose powers and total are known and whose quorum is decided,
-- stores at that height the bitmap, the two powers and the decision, which is what IsSoftConfirmed says
-- of the height both before and after; the results of other heights stay.
pub process_checkpoint_lem :
    (env : Env) (height : ℤ) (bitmap : Bytes) (s : State) (voted total : ℕ) (decision : Bool)
    → get_attestation_bitmap s height ≡ some bitmap
    → calculate_voted_power bitmap s ≡ ok voted
    → get_total_power env ≡ ok total
    → is_soft_confirmed env height s ≡ ok decision
    → (s' : State) × (process_checkpoint env height s ≡ (ok tt, s'))
      × ((h : ℤ)
          → Map.get s'.stored_attestation_info h ≡ (
              if height == h
              then some (record {
                height = height;
                bitmap = bitmap;
                voted_power = voted;
                total_power = total;
                soft_confirmed = decision;
              })
              else Map.get s.stored_attestation_info h))
      × (is_soft_confirmed env height s' ≡ ok decision)
unfolding process_checkpoint checkpoint_bitmap
process_checkpoint_lem env height bitmap s voted total decision found power sum soft =
    let quorum : check_quorum env voted total s ≡ ok decision =
      sym (soft_confirmed-stored env height bitmap s voted total found power sum) ∙ soft in
    let info : AttestationBitmap = attestation_info height bitmap voted total decision in
    let stored : State =
      emit_event
        (checkpoint_event env height (env.sha256 bitmap) (env.sha256 env.placeholder) decision)
        (set_stored_attestation_info height info s) in
    (
      stored,
      rw (found, process_checkpoint) (ground arith),
      λ h.
          unfold set_stored_attestation_info emit_event attestation_info in
          Map.get-put s.stored_attestation_info height h info,
      soft_confirmed-stored env height bitmap stored voted total
            (unfold set_stored_attestation_info emit_event get_attestation_bitmap in found)
            (voted_power_frame s stored bitmap
                (unfold set_stored_attestation_info emit_event in refl)
              ∙ power)
            sum
          ∙ (unfold set_stored_attestation_info emit_event check_quorum in quorum),
    )

-- A bitmap with a set bit for whose index no power is stored, as after the index map was rebuilt for
-- fewer validators, makes the end of the block fail at its checkpoint height.
pub end_blocker-missing_power :
    (env : Env) (n i : ℕ) (bitmap : Bytes) (s : State)
    → is_checkpoint_height (pos n) s ≡ ok true
    → get_attestation_bitmap s (pos n) ≡ some bitmap
    → i < length bitmap * 8
    → is_set bitmap (pos i) ≡ true
    → Map.get s.validator_power (i % u16_mod) ≡ none
    → end_blocker env (pos n) s ≡ (err not_found, s)
unfolding end_blocker process_checkpoint checkpoint_bitmap
end_blocker-missing_power env n i bitmap s due found within set missing =
    ground (arith, calculate_voted_power-missing s bitmap i within set missing)
