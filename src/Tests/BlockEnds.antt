-- ===== src/Tests/BlockEnds.antt =====
-- Ends of blocks on the sample chain: block 10 is a checkpoint.
use go_execution_abci.Prelude.{
  ◌≡◌, refl, true, false, some, [], ◌∷◌, arith, ◌==◌, nat_eq, if◌then◌else◌,
}
use go_execution_abci.Prelude.Int.{ℤ, pos, ℤ_eq}
use go_execution_abci.Prelude.Map
use go_execution_abci.Prelude.Exec.{ok, err}
use go_execution_abci.Network.Bitmap.{is_set}
use go_execution_abci.Network.Types.{AttestationBitmap, State, not_found}
use go_execution_abci.Network.Types.Validate.{IsValidParams}
use go_execution_abci.Network.Keeper.{
  get_params, get_attestation_bitmap, calculate_voted_power, get_total_power, is_soft_confirmed,
  is_checkpoint_height, check_quorum,
}
use go_execution_abci.Network.EndBlock.{process_checkpoint, end_blocker}
use go_execution_abci.Network.EndBlock.Checkpoint.{
  process_checkpoint_lem, end_blocker-missing_power,
}
use go_execution_abci.Network.EndBlock.Schedule.{scheduled, end_blocker_schedule}
use go_execution_abci.Network.EndBlock.Progress.{IsAnswering, IsCovered, end_blocker_ok}
use go_execution_abci.Tests.Samples.{chain, chain_decimals, alice, bob, carol, rules, state}
use go_execution_abci.Network.Query.{query_attestation_bitmap}

steps : Unit {0}
unfolding get_params get_attestation_bitmap calculate_voted_power get_total_power check_quorum
    is_soft_confirmed is_checkpoint_height is_set Map.get
steps = tt

bitmap_10 : get_attestation_bitmap state (pos 10) ≡ some (2 ∷ [])
unfolding steps
bitmap_10 = refl

voted_40 : calculate_voted_power (2 ∷ []) state ≡ ok 40
unfolding steps
voted_40 = refl

total_100 : get_total_power chain ≡ ok 100
unfolding steps
total_100 = refl

unconfirmed : is_soft_confirmed chain (pos 10) state ≡ ok false
unfolding steps
unconfirmed = refl

process_checkpoint_lem_example :
    (s' : State) × (process_checkpoint chain (pos 10) state ≡ (ok tt, s'))
    × ((h : ℤ)
        → Map.get s'.stored_attestation_info h ≡ (
            if pos 10 == h
            then some (record {
              height = pos 10;
              bitmap = 2 ∷ [];
              voted_power = 40;
              total_power = 100;
              soft_confirmed = false;
            })
            else Map.get state.stored_attestation_info h))
    × (is_soft_confirmed chain (pos 10) s' ≡ ok false)
process_checkpoint_lem_example =
    process_checkpoint_lem chain (pos 10) (2 ∷ []) state 40 100 false bitmap_10 voted_40 total_100
      unconfirmed

-- The powers after a rebuild for one validator.
abbrev shrunk : State
shrunk = record state { validator_power = (0, 60) ∷ [] }

checkpoint_10 : is_checkpoint_height (pos 10) shrunk ≡ ok true
unfolding steps
checkpoint_10 = refl

shrunk_bitmap : get_attestation_bitmap shrunk (pos 10) ≡ some (2 ∷ [])
unfolding steps
shrunk_bitmap = refl

carol_bit : is_set (2 ∷ []) (pos 1) ≡ true
unfolding steps
carol_bit = refl

end_blocker-missing_power_example : end_blocker chain (pos 10) shrunk ≡ (err not_found, shrunk)
unfolding steps
end_blocker-missing_power_example =
    end_blocker-missing_power chain 10 1 (2 ∷ []) shrunk checkpoint_10 shrunk_bitmap (omega arith)
      carol_bit refl

end_blocker_schedule_example : end_blocker chain (pos 19) state ≡ scheduled chain 19 10 state
end_blocker_schedule_example =
    end_blocker_schedule chain 19 state rules refl (omega arith) (omega arith)

answers : IsAnswering chain chain_decimals rules
answers = record {
  all_validators = (alice ∷ bob ∷ carol ∷ [], refl);
  last_validators = (alice ∷ carol ∷ [], refl);
  total_power = (100, refl, omega arith);
  quorum_units = (pos 667000000000000000, 667000000000000000, refl, refl, omega arith);
}

valid_rules : IsValidParams chain rules
valid_rules = record {
  epoch_length = omega arith;
  quorum_fraction = (pos 667000000000000000, refl, refl, refl);
  min_participation = (pos 500000000000000000, refl, refl, refl);
  prune_after = omega arith;
  sign_mode = refl;
}

-- No vote has come for block 20.
uncovered : IsCovered state (pos 20)
unfolding steps
uncovered bitmap h = cc

end_blocker_ok_example : (end_blocker chain (pos 20) state).0 ≡ ok tt
end_blocker_ok_example =
    end_blocker_ok chain chain_decimals rules answers state 20 refl valid_rules (omega arith)
      uncovered

abbrev answer : AttestationBitmap
answer = record {
  height = pos 10;
  bitmap = 2 ∷ [];
  voted_power = 40;
  total_power = 100;
  soft_confirmed = false;
}

answered : query_attestation_bitmap chain (some (pos 10)) state ≡ ok answer
unfolding steps query_attestation_bitmap
answered = refl
