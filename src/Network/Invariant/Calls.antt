-- ===== src/Network/Invariant/Calls.antt =====
-- The calls of modules/network one after the other, and what every state they reach holds.
use go_execution_abci.Prelude.{
  ℕ, ◌%◌, ◌≡◌, refl, String, Bool, true, false, List, [], ◌∷◌, arith, if◌then◌else◌, sym, subst,
  ◌∙◌, ◌==◌, string_eq, nat_eq, inl, inr, Option-cases,
}
use go_execution_abci.Prelude.Int.{ℤ, ℤ_eq, u16_mod}
use go_execution_abci.Prelude.Map
use go_execution_abci.Prelude.Exec.{
  Exec, Keeps, >>=-Keeps, if-Keeps, reads-Keeps, step-Keeps, pure, modify,
}
use go_execution_abci.Network.Bitmap.{Bytes}
use go_execution_abci.Network.Types.{
  Error, AttestationBitmap, ValidatorIndex, GenesisState, MsgAttest, MsgUpdateParams, Env, State,
}
use go_execution_abci.Network.Keeper.{
  prune_old_bitmaps, set_attestation_bitmap, set_params, get_attestation_bitmap, get_current_epoch,
  calculate_voted_power, get_total_power, check_quorum, is_checkpoint_height,
}
use go_execution_abci.Network.MsgServer.{
  attest, join_attester_set, leave_attester_set, update_params,
}
use go_execution_abci.Network.EndBlock.{
  end_blocker, checkpoint_event, process_checkpoint, checkpoint_bitmap, process_epoch_end,
  set_stored_attestation_info, attestation_info, check_participation, next_epoch,
}
use go_execution_abci.Network.Genesis.{
  set_soft_confirmed, confirm_if, init_validators, init_bitmap, init_bitmaps, init_genesis,
}
use go_execution_abci.Network.Invariant.{
  IsSound, set_validator_index-IsSound, build_validator_index_map-Keeps, prune_old_bitmaps-IsSound,
}
use go_execution_abci.Network.Invariant.Messages.{
  emit_event-Keeps, attest-Keeps, join_attester_set-Keeps, leave_attester_set-Keeps,
  update_params-Keeps, set_attestation_bitmap-IsSound, set_attester_set_member-IsSound,
  set_params-IsSound,
}

-- A result under its own height.
set_info-IsSound :
    (h : ℤ) (ab : AttestationBitmap) (s : State)
    → ab.height ≡ h
    → IsSound s
    → IsSound (set_stored_attestation_info h ab s)
unfolding set_stored_attestation_info
set_info-IsSound h ab s e v = record {
  indexed = v.indexed;
  stored = λ k found h'.
      ground
        (arith, Map.get-put s.stored_attestation_info h k ab, ℤ_eq.beq_iff h k, v.stored k found);
}

pure-Keeps : Keeps {E = Error} IsSound (pure tt)
pure-Keeps = record { keeps = λ s v. v }

checkpoint_bitmap-Keeps :
    (env : Env) (height : ℤ) (bitmap : Bytes) → Keeps IsSound (checkpoint_bitmap env height bitmap)
unfolding checkpoint_bitmap attestation_info
checkpoint_bitmap-Keeps env height bitmap =
    reads-Keeps IsSound (calculate_voted_power bitmap) λ voted.
      reads-Keeps IsSound (λ _. get_total_power env)
        λ total. reads-Keeps IsSound (check_quorum env voted total) λ confirmed.
          step-Keeps IsSound
            (modify (
              set_stored_attestation_info height
                (attestation_info height bitmap voted total confirmed)))
            (λ s v. set_info-IsSound height _ s refl v)
            λ _. emit_event-Keeps (
              checkpoint_event env height (env.sha256 bitmap) (env.sha256 env.placeholder)
                confirmed)

process_checkpoint-Keeps : (env : Env) (height : ℤ) → Keeps IsSound (process_checkpoint env height)
unfolding process_checkpoint
process_checkpoint-Keeps env height = record {
  keeps = λ s v. elim (Option-cases (get_attestation_bitmap s height)) [
    | inl e ↦ rw (e, process_checkpoint) v
    | inr (bitmap, e) ↦
        rw (e, process_checkpoint) ((checkpoint_bitmap-Keeps env height bitmap).keeps s v)
  ];
}

process_epoch_end-Keeps : (env : Env) (epoch : ℕ) → Keeps IsSound (process_epoch_end env epoch)
unfolding process_epoch_end
process_epoch_end-Keeps env epoch =
    reads-Keeps IsSound (check_participation env epoch) λ _. build_validator_index_map-Keeps env

end_blocker-Keeps : (env : Env) (height : ℤ) → Keeps IsSound (end_blocker env height)
unfolding end_blocker
end_blocker-Keeps env height = reads-Keeps IsSound (is_checkpoint_height height) λ is_checkpoint.
    >>=-Keeps IsSound (if is_checkpoint then process_checkpoint env height else pure tt) _
      (if-Keeps IsSound is_checkpoint (process_checkpoint env height) (pure tt)
        (process_checkpoint-Keeps env height) pure-Keeps)
      λ _. reads-Keeps IsSound (get_current_epoch height) λ epoch.
        reads-Keeps IsSound (next_epoch height) λ next.
          if-Keeps IsSound (epoch == next) (pure tt) (process_epoch_end env epoch) pure-Keeps
            (process_epoch_end-Keeps env epoch)

init_validators-IsSound :
    (vis : List ValidatorIndex) (s : State) → IsSound s → IsSound (init_validators vis s)
unfolding init_validators
init_validators-IsSound [] s v = v
init_validators-IsSound (vi ∷ vis) s v = init_validators-IsSound vis _ (
    set_attester_set_member-IsSound vi.address _
      (set_validator_index-IsSound vi.address (vi.index % u16_mod) vi.power s (omega arith) v))

set_soft_confirmed-Keeps : (h : ℤ) → Keeps IsSound (set_soft_confirmed h)
unfolding set_soft_confirmed
set_soft_confirmed-Keeps h = record {
  keeps = λ s v. elim (Option-cases (Map.get s.stored_attestation_info h)) [
    | inl e ↦ rw e v
    | inr (ab, e) ↦
        rw e (set_info-IsSound h (record ab { soft_confirmed = true }) s (v.stored h ab e) v)
  ];
}

confirm_if-Keeps : (b : Bool) (h : ℤ) → Keeps IsSound (confirm_if b h)
confirm_if-Keeps true h = set_soft_confirmed-Keeps h
confirm_if-Keeps false h = pure-Keeps

init_bitmap-Keeps : (ab : AttestationBitmap) → Keeps IsSound (init_bitmap ab)
unfolding init_bitmap
init_bitmap-Keeps ab =
    step-Keeps IsSound (modify (set_attestation_bitmap ab.height ab.bitmap))
      (set_attestation_bitmap-IsSound ab.height ab.bitmap)
      λ _.
        step-Keeps IsSound (modify (set_stored_attestation_info ab.height ab))
          (λ s v. set_info-IsSound ab.height ab s refl v)
          λ _. confirm_if-Keeps ab.soft_confirmed ab.height

init_bitmaps-Keeps : (abs : List AttestationBitmap) → Keeps IsSound (init_bitmaps abs)
unfolding init_bitmaps
init_bitmaps-Keeps [] = pure-Keeps
init_bitmaps-Keeps (ab ∷ abs) =
    >>=-Keeps IsSound (init_bitmap ab) _ (init_bitmap-Keeps ab) λ _. init_bitmaps-Keeps abs

init_genesis-Keeps : (gs : GenesisState) → Keeps IsSound (init_genesis gs)
unfolding init_genesis
init_genesis-Keeps gs =
    step-Keeps IsSound (modify (set_params gs.params)) (set_params-IsSound gs.params) λ _.
      step-Keeps IsSound (modify (init_validators gs.validator_indices))
        (init_validators-IsSound gs.validator_indices)
        λ _. init_bitmaps-Keeps gs.attestation_bitmaps

-- The calls of the module from outside: the genesis, the messages, the end of a block, and the pruning,
-- which the keeper offers. Each comes with what its surroundings answer.
pub data Call : Type 1 where
  genesis : GenesisState → Call
  attests : Env → ℤ → MsgAttest → Call
  joins : Env → String → Call
  leaves : String → Call
  updates : Env → MsgUpdateParams → Call
  ends : Env → ℤ → Call
  prunes : ℕ → Call

unfoldable pub run : Call → Exec Error State (Unit {0})
run (genesis gs) = init_genesis gs
run (attests env height msg) = attest env height msg
run (joins env validator) = join_attester_set env validator
run (leaves validator) = leave_attester_set validator
run (updates env msg) = update_params env msg
run (ends env height) = end_blocker env height
run (prunes epoch) = modify (prune_old_bitmaps epoch)

run-Keeps : (c : Call) → Keeps IsSound (run c)
unfolding run
run-Keeps (genesis gs) = init_genesis-Keeps gs
run-Keeps (attests env height msg) = attest-Keeps env height msg
run-Keeps (joins env validator) = join_attester_set-Keeps env validator
run-Keeps (leaves validator) = leave_attester_set-Keeps validator
run-Keeps (updates env msg) = update_params-Keeps env msg
run-Keeps (ends env height) = end_blocker-Keeps env height
run-Keeps (prunes epoch) = record { keeps = prune_old_bitmaps-IsSound epoch }

-- The states after calls on an empty store. A call that failed may have been undone or not.
pub data Reached : State → Type 1 where
  empty : (s : State) → s.validator_index ≡ [] → s.stored_attestation_info ≡ [] → Reached s
  after : {s t : State} → Reached s → (c : Call) → t ≡ (run c s).1 → Reached t

-- In every state that calls reach, whatever they came to, each validator's index is below 2^16 and has
-- a power, and the result stored under a height is that of this height.
pub Reached-IsSound : {s : State} → Reached s → IsSound s
Reached-IsSound (empty s no_indices no_results) = record {
  indexed = λ a i h. cc (sym (Map.get-nil {K = String} {V = ℕ} a) ∙ (rw no_indices at h));
  stored =
      λ k ab h. cc (sym (Map.get-nil {K = ℤ} {V = AttestationBitmap} k) ∙ (rw no_results at h));
}
Reached-IsSound (after {s = s} r c e) =
    subst IsSound (sym e) ((run-Keeps c).keeps s (Reached-IsSound r))
