-- ===== src/Network/Types/Validate.antt =====
-- The validation of parameters (modules/network/types/params.go) and of a genesis state
-- (modules/network/types/genesis.go).
use go_execution_abci.Prelude.{
  ℕ, ◌<◌, ◌≡◌, ◌↔◌, inl, inr, String, Bool, false, ◌||◌, some, List, [], ◌∷◌, arith, ltb, ◌==◌,
  nat_eq, string_eq, if◌then◌else◌, length, Option-cases,
}
use go_execution_abci.Prelude.Int.{pos, leb_ℤ}
use go_execution_abci.Prelude.Exec.{Outcome, ok, err, then_ok, then_ok-eq-ok, or_err}
use go_execution_abci.Network.Types.{
  Error, invalid_param, SignMode, unspecified, checkpoint, other, Params, AttestationBitmap,
  ValidatorIndex, GenesisState, Env,
}

abbrev pub Check : Type 0
Check = Outcome Error (Unit {0})

unfoldable pub validate_epoch_length : ℕ → Check
validate_epoch_length v = if v == 0 then err invalid_param else ok tt

unfoldable pub validate_prune_after : ℕ → Check
validate_prune_after v = if v == 0 then err invalid_param else ok tt

unfoldable pub validate_sign_mode : SignMode → Check
validate_sign_mode unspecified = err invalid_param
validate_sign_mode checkpoint = ok tt
validate_sign_mode (other v) = err invalid_param

module _ (env : Env) where
  -- validateQuorumFraction and validateMinParticipation, which have the same text.
  unfoldable pub validate_fraction : String → Check
  validate_fraction v =
      then_ok (or_err (env.new_dec_from_str v) invalid_param) λ dec.
        if env.lte dec env.zero_dec || env.gt dec env.one_dec then err invalid_param else ok tt

  unfoldable pub validate_params : Params → Check
  validate_params p = then_ok (validate_epoch_length p.epoch_length) λ _.
      then_ok (validate_fraction p.quorum_fraction) λ _.
        then_ok (validate_fraction p.min_participation)
          λ _. then_ok (validate_prune_after p.prune_after) λ _. validate_sign_mode p.sign_mode

-- `indexMap` and `usedIndices` of the source, as the addresses and the indices seen so far.
unfoldable pub mem_str : String → List String → Bool
mem_str a [] = false
mem_str a (b ∷ seen) = a == b || mem_str a seen

unfoldable pub mem_nat : ℕ → List ℕ → Bool
mem_nat a [] = false
mem_nat a (b ∷ seen) = a == b || mem_nat a seen

unfoldable pub validate_indices : List String → List ℕ → List ValidatorIndex → Check
unfolding mem_str mem_nat
validate_indices addresses used [] = ok tt
validate_indices addresses used (vi ∷ rest) =
    let later = validate_indices (vi.address ∷ addresses) (vi.index ∷ used) rest in
    if mem_str vi.address addresses
    then err invalid_param
    else if mem_nat vi.index used
    then err invalid_param
    else later

pub validate_bitmaps : List AttestationBitmap → Check
validate_bitmaps [] = ok tt
validate_bitmaps (ab ∷ rest) =
    let later = validate_bitmaps rest in
    if leb_ℤ ab.height (pos 0)
    then err invalid_param
    else if ltb ab.total_power ab.voted_power
    then err invalid_param
    else later

unfoldable pub validate_genesis : Env → GenesisState → Check
unfolding validate_params validate_indices validate_bitmaps
validate_genesis env gs = then_ok (validate_params env gs.params) λ _.
    if ltb 65535 (length gs.validator_indices)
    then err invalid_param
    else then_ok (validate_indices [] [] gs.validator_indices)
        λ _. validate_bitmaps gs.attestation_bitmaps

-- A text that parses to a decimal in (0, 1].
abbrev pub IsFraction : Env → String → Type 0
IsFraction env v =
    (d : env.LegacyDec) × (env.new_dec_from_str v ≡ some d)
    × (env.lte d env.zero_dec ≡ false)
    × (env.gt d env.one_dec ≡ false)

pub record IsValidParams (env : Env) (p : Params) : Type 0 where
  pub epoch_length : 0 < p.epoch_length
  pub quorum_fraction : IsFraction env p.quorum_fraction
  pub min_participation : IsFraction env p.min_participation
  pub prune_after : 0 < p.prune_after
  pub sign_mode : p.sign_mode ≡ checkpoint

validate_fraction_sound :
    (env : Env) (v : String) → validate_fraction env v ≡ ok tt → IsFraction env v
unfolding validate_fraction
validate_fraction_sound env v h = elim (Option-cases (env.new_dec_from_str v)) [
  | inl e ↦ ground arith
  | inr (d, e) ↦ (d, e, ground arith, ground arith)
]

validate_fraction_complete :
    (env : Env) (v : String) → IsFraction env v → validate_fraction env v ≡ ok tt
unfolding validate_fraction
validate_fraction_complete env v (d, parses, above, below) = ground arith

validate_params_sound :
    (env : Env) (p : Params) → validate_params env p ≡ ok tt → IsValidParams env p
unfolding validate_params
validate_params_sound env p h =
    let (_, epoch, h₁) = then_ok-eq-ok (validate_epoch_length p.epoch_length) _ h in
    let (_, quorum, h₂) = then_ok-eq-ok (validate_fraction env p.quorum_fraction) _ h₁ in
    let (_, part, h₃) = then_ok-eq-ok (validate_fraction env p.min_participation) _ h₂ in
    let (_, prune, mode) = then_ok-eq-ok (validate_prune_after p.prune_after) _ h₃ in
    record {
      epoch_length = unfold validate_epoch_length in ground arith;
      quorum_fraction = validate_fraction_sound env p.quorum_fraction quorum;
      min_participation = validate_fraction_sound env p.min_participation part;
      prune_after = unfold validate_prune_after in ground arith;
      sign_mode = unfold validate_sign_mode in ground arith;
    }

validate_params_complete :
    (env : Env) (p : Params) → IsValidParams env p → validate_params env p ≡ ok tt
unfolding validate_params validate_epoch_length validate_prune_after validate_sign_mode
validate_params_complete env p v = ground (
  arith,
  validate_fraction_complete env p.quorum_fraction v.quorum_fraction,
  validate_fraction_complete env p.min_participation v.min_participation,
)

-- Parameters pass validation exactly when the epoch length and the retention are positive, the quorum
-- fraction and the participation parse to decimals in (0, 1], and the mode is the checkpoint mode.
pub validate_params_iff :
    (env : Env) (p : Params) → (validate_params env p ≡ ok tt) ↔ IsValidParams env p
validate_params_iff env p = (validate_params_sound env p, validate_params_complete env p)
