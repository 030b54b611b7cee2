-- ===== src/Network/EndBlock/Progress.antt =====
-- The end of a block succeeds in a state that fits together.
use go_execution_abci.Prelude.{
  ℕ, ◌+◌, ◌*◌, ◌/◌, ◌%◌, ◌<◌, ◌≤◌, ◌≡◌, ◌∙◌, Bool, some, List, arith, nat_eq, length, Option-cases,
  inl, inr,
}
use go_execution_abci.Prelude.Int.{ℤ, pos, i64_bound, u64_mod}
use go_execution_abci.Prelude.Sums.{total as sum}
use go_execution_abci.Prelude.Exec.{ok}
use go_execution_abci.Network.Bitmap.{Bytes}
use go_execution_abci.Network.Types.{Params, Validator, Env, State}
use go_execution_abci.Network.Types.Validate.{IsValidParams}
use go_execution_abci.Network.Keeper.{
  get_params, get_attestation_bitmap, get_total_power, check_quorum, build_validator_index_map,
}
use go_execution_abci.Network.Keeper.VotedPower.{HasPowers, weight, calculate_voted_power-total}
use go_execution_abci.Network.Keeper.Quorum.{IsDecimal, one_unit, check_quorum-floor}
use go_execution_abci.Network.EndBlock.{
  checkpoint_bitmap, process_checkpoint, low_participation, check_participation, process_epoch_end,
  end_blocker,
}
use go_execution_abci.Network.EndBlock.Schedule.{process_checkpoint-params, end_blocker_schedule}

-- What the module needs of its surroundings at the end of a block: a staking keeper that answers, with a
-- total power that fits an int64, and a quorum fraction of at most one unit.
pub record IsAnswering (env : Env) (dec : IsDecimal env) (p : Params) : Type 0 where
  pub all_validators : (vs : List Validator) × (env.get_all_validators ≡ ok vs)
  pub last_validators : (vs : List Validator) × (env.get_last_validators ≡ ok vs)
  pub total_power : (n : ℕ) × (env.get_last_total_power ≡ ok (pos n)) × (n < i64_bound)
  pub quorum_units :
      (d : env.LegacyDec) × (a : ℕ) × (env.new_dec_from_str p.quorum_fraction ≡ some d)
      × (dec.units d ≡ pos a)
      × (a ≤ one_unit)

-- Every set bit of the height's bitmap has a stored power.
abbrev pub IsCovered : State → ℤ → Type 0
IsCovered s height =
    (bitmap : Bytes)
    → get_attestation_bitmap s height ≡ some bitmap
    → HasPowers s bitmap (length bitmap * 8)

module _ (env : Env) (dec : IsDecimal env) (p : Params) (answers : IsAnswering env dec p) where
  total_power_ok : (n : ℕ) × (get_total_power env ≡ ok n) × (n < i64_bound)
  unfolding get_total_power
  total_power_ok =
      let (n, known, fits) = answers.total_power in (n, rw known (dec.fits n (omega arith)), fits)

  quorum_ok :
      (s : State) (voted total : ℕ)
      → s.params ≡ some p
      → total < i64_bound
      → (b : Bool) × (check_quorum env voted total s ≡ ok b)
  unfolding get_params
  quorum_ok s voted total stored fits =
      let (d, a, parsed, units, small) = answers.quorum_units in
      (
        _,
        check_quorum-floor env dec s voted total a d (rw (stored, get_params) parsed) units small
            fits,
      )

  process_checkpoint_ok :
      (s : State) (height : ℤ)
      → s.params ≡ some p
      → IsCovered s height
      → (process_checkpoint env height s).0 ≡ ok tt
  unfolding process_checkpoint checkpoint_bitmap
  process_checkpoint_ok s height stored covered =
      elim (Option-cases (get_attestation_bitmap s height)) [
        | inl e ↦ rw (e, process_checkpoint)
        | inr (bitmap, e) ↦
            let powers = calculate_voted_power-total s bitmap (covered bitmap e) in
            let (total, known, fits) = total_power_ok in
            let (b, decided) =
              quorum_ok s (sum (length bitmap * 8) (weight s bitmap) % u64_mod) total stored fits in
            rw (e, process_checkpoint) (rw (powers, known, decided))
      ]

  process_epoch_end_ok :
      (s : State) (epoch : ℕ)
      → s.params ≡ some p
      → IsValidParams env p
      → (process_epoch_end env epoch s).0 ≡ ok tt
  unfolding process_epoch_end check_participation low_participation build_validator_index_map
      get_params
  process_epoch_end_ok s epoch stored valid =
      let (vs, all) = answers.all_validators in
      let (ws, last) = answers.last_validators in
      let (d, parsed, _, _) = valid.min_participation in ground arith

  -- With valid parameters stored, surroundings that answer, and a stored power for each set bit of the
  -- height's bitmap if it has one, the end of the block succeeds at every height that fits a uint64
  -- together with the next one.
  pub end_blocker_ok :
      (s : State) (n : ℕ)
      → s.params ≡ some p
      → IsValidParams env p
      → n + 1 < u64_mod
      → IsCovered s (pos n)
      → (end_blocker env (pos n) s).0 ≡ ok tt
  end_blocker_ok s n stored valid fits covered =
      rw (end_blocker_schedule env n s p stored valid.epoch_length fits) (
        ground (
          arith,
          process_checkpoint_ok s (pos n) stored covered,
          process_epoch_end_ok (process_checkpoint env (pos n) s).1 (n / p.epoch_length)
              (process_checkpoint-params env (pos n) s ∙ stored) valid,
          process_epoch_end_ok s (n / p.epoch_length) stored valid,
        ))
