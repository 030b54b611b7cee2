-- ===== src/Tests/Bitmaps.antt =====
-- Bitmaps of two bytes, and the quorum and the index map of the sample chain.
use go_execution_abci.Prelude.{
  ℕ, ◌*◌, zero, suc, ◌/◌, ◌%◌, ◌<◌, ◌≡◌, ◌↔◌, refl, true, some, none, [], ◌∷◌, arith, ltb, nat_eq,
  string_eq, if◌then◌else◌, String, get_elem?,
}
use go_execution_abci.Prelude.Int.{negsuc, ℤ_eq, pos, to_u64, u16_mod, u64_mod}
use go_execution_abci.Prelude.Sums.{total}
use go_execution_abci.Prelude.Map
use go_execution_abci.Prelude.Exec.{ok}
use go_execution_abci.Network.Bitmap.{Bytes, is_set, pop_count}
use go_execution_abci.Network.Types.{State, Validator}
use go_execution_abci.Network.Types.Validate.{
  validate_epoch_length, validate_fraction, validate_prune_after, validate_sign_mode,
  validate_params,
}
use go_execution_abci.Network.Keeper.{
  get_params, get_validator_index, get_validator_power, get_attestation_bitmap, get_epoch_bitmap,
  calculate_voted_power, check_quorum, build_validator_index_map, prune_old_bitmaps,
}
use go_execution_abci.Network.Keeper.VotedPower.{HasPowers, weight, calculate_voted_power-total}
use go_execution_abci.Network.Keeper.Quorum.{check_quorum_iff, one_unit}
use go_execution_abci.Network.Keeper.IndexMap.{
  Absent, Distinct, bonded_of, build_validator_index_map_lem,
}
use go_execution_abci.Network.Keeper.Pruning.{prune_old_bitmaps_lem}
use go_execution_abci.Tests.Samples.{chain, chain_decimals, alice, bob, carol, rules, state}

abbrev votes : Bytes
votes = 5 ∷ 128 ∷ []

three_votes : pop_count votes ≡ 3
unfolding pop_count
three_votes = refl

rules_pass : validate_params chain rules ≡ ok tt
unfolding validate_params validate_epoch_length validate_fraction validate_prune_after
    validate_sign_mode
rules_pass = refl

power_1 : Map.get state.validator_power (1 % u16_mod) ≡ some 40
unfolding Map.get
power_1 = refl

-- Carol's vote alone, whose bit is 1.
carol_power : HasPowers state (2 ∷ []) 8
unfolding is_set
carol_power zero h on = cc
carol_power (suc zero) h on = (40, power_1)
carol_power (suc (suc zero)) h on = cc
carol_power (suc (suc (suc zero))) h on = cc
carol_power (suc (suc (suc (suc zero)))) h on = cc
carol_power (suc (suc (suc (suc (suc zero))))) h on = cc
carol_power (suc (suc (suc (suc (suc (suc zero)))))) h on = cc
carol_power (suc (suc (suc (suc (suc (suc (suc zero))))))) h on = cc
carol_power (suc (suc (suc (suc (suc (suc (suc (suc i)))))))) h on = (0, ground (arith, h))

calculate_voted_power-total_example :
    calculate_voted_power (2 ∷ []) state ≡ ok (total 8 (weight state (2 ∷ [])) % u64_mod)
calculate_voted_power-total_example = calculate_voted_power-total state (2 ∷ []) carol_power

rules_stored : get_params state ≡ rules
unfolding get_params
rules_stored = refl

check_quorum_iff_example :
    (check_quorum chain 66 100 state ≡ ok true) ↔ (100 * 667000000000000000 < 67 * one_unit)
check_quorum_iff_example =
    check_quorum_iff chain chain_decimals state 66 100 667000000000000000 (pos 667000000000000000)
      (rw rules_stored refl) refl (omega arith) (omega arith)

distinct : Distinct (alice ∷ carol ∷ [])
distinct = (((λ e. cc ((string_eq.beq_iff "carol" "alice").1 e)), tt), (tt, tt))

build_validator_index_map_lem_example :
    (s' : State) × (build_validator_index_map chain state ≡ (ok tt, s'))
    × ((i : ℕ) (v : Validator)
        → get_elem? (bonded_of (alice ∷ bob ∷ carol ∷ [])) i ≡ some v
        → (get_validator_index s' v.operator_address ≡ some i)
          × (get_validator_power s' i ≡ ok (to_u64 v.consensus_power)))
    × ((a : String)
        → Absent a (bonded_of (alice ∷ bob ∷ carol ∷ []))
        → get_validator_index s' a ≡ none)
build_validator_index_map_lem_example =
    build_validator_index_map_lem chain state (alice ∷ bob ∷ carol ∷ []) refl distinct (omega arith)

prune_old_bitmaps_lem_example :
    ((n : ℕ)
      → get_attestation_bitmap (prune_old_bitmaps 5 state) (pos n)
        ≡ (if ltb (n / 10) 3 then none else get_attestation_bitmap state (pos n)))
    × ((n : ℕ)
        → Map.get (prune_old_bitmaps 5 state).stored_attestation_info (pos n)
          ≡ (if ltb (n / 10) 3 then none else Map.get state.stored_attestation_info (pos n)))
    × ((n : ℕ)
        → get_attestation_bitmap (prune_old_bitmaps 5 state) (negsuc n)
          ≡ get_attestation_bitmap state (negsuc n))
    × ((n : ℕ)
        → Map.get (prune_old_bitmaps 5 state).stored_attestation_info (negsuc n)
          ≡ Map.get state.stored_attestation_info (negsuc n))
    × ((e : ℕ)
        → get_epoch_bitmap (prune_old_bitmaps 5 state) e
          ≡ (if ltb e 3 then none else get_epoch_bitmap state e))
unfolding get_params
prune_old_bitmaps_lem_example =
    prune_old_bitmaps_lem state 5 (omega arith) (omega arith) (omega arith)
