-- ===== src/Network/Keeper.antt =====
-- modules/network/keeper/keeper.go. The reads and writes of the collections fail only by a missing
-- key; the two ways in which a read of a missing key is used are spelled out at each read.
pub mod VotedPower
pub mod Quorum
pub mod IndexMap
pub mod Pruning
use go_execution_abci.Prelude.{
  ℕ, zero, suc, ◌+◌, ◌-◌, ◌*◌, ◌/◌, ◌%◌, String, Bool, true, false, ◌&&◌, Option, none, some, List,
  [], ◌∷◌, not, ltb, leb, ◌==◌, nat_eq, string_eq, if◌then◌else◌, length,
}
use go_execution_abci.Prelude.Int.{ℤ, pos, ltb_ℤ, leb_ℤ, ℤ_eq, to_u64, to_i64, u16_mod, u64_mod}
use go_execution_abci.Prelude.Map
use go_execution_abci.Prelude.Exec.{Outcome, ok, err, panic, then_ok, or_err, Exec}
use go_execution_abci.Network.Bitmap.{Bytes, is_set}
use go_execution_abci.Network.Types.{
  Error, not_found, invalid_decimal, unspecified, Params, Env, State, Validator, SignatureKey,
  key_eq,
}

-- GetParams: the zero value of Params while none are stored.
abbrev pub zero_params : Params
zero_params = record {
  epoch_length = 0;
  quorum_fraction = "";
  min_participation = "";
  prune_after = 0;
  sign_mode = unspecified;
}

unfoldable pub get_params : State → Params
get_params s = elim s.params [ none ↦ zero_params | some p ↦ p ]

unfoldable pub set_params : Params → State → State
set_params p s = record s { params = some p }

unfoldable pub set_validator_index : String → ℕ → ℕ → State → State
set_validator_index addr index power s = record s {
  validator_index = Map.put s.validator_index addr index;
  validator_power = Map.put s.validator_power index power;
}

unfoldable pub get_validator_index : State → String → Option ℕ
get_validator_index s addr = Map.get s.validator_index addr

unfoldable pub get_validator_power : State → ℕ → Outcome Error ℕ
get_validator_power s index = or_err (Map.get s.validator_power index) not_found

unfoldable pub set_attestation_bitmap : ℤ → Bytes → State → State
set_attestation_bitmap height bitmap s = record s {
  attestation_bitmap = Map.put s.attestation_bitmap height bitmap;
}

-- `none` is the nil bitmap that comes with ErrNotFound.
unfoldable pub get_attestation_bitmap : State → ℤ → Option Bytes
get_attestation_bitmap s height = Map.get s.attestation_bitmap height

unfoldable pub set_epoch_bitmap : ℕ → Bytes → State → State
set_epoch_bitmap epoch bitmap s = record s { epoch_bitmap = Map.put s.epoch_bitmap epoch bitmap }

unfoldable pub get_epoch_bitmap : State → ℕ → Option Bytes
get_epoch_bitmap s epoch = Map.get s.epoch_bitmap epoch

unfoldable pub is_in_attester_set : State → String → Bool
is_in_attester_set s addr = Map.has s.attester_set addr

unfoldable pub set_attester_set_member : String → State → State
set_attester_set_member addr s = record s { attester_set = Map.put s.attester_set addr tt }

unfoldable pub remove_attester_set_member : String → State → State
remove_attester_set_member addr s = record s { attester_set = Map.remove s.attester_set addr }

unfoldable pub set_signature : ℤ → String → Bytes → State → State
set_signature height addr signature s = record s {
  signatures = Map.put s.signatures (height, addr) signature;
}

unfoldable pub get_signature : State → ℤ → String → Outcome Error Bytes
get_signature s height addr = or_err (Map.get s.signatures (height, addr)) not_found

unfoldable pub has_signature : State → ℤ → String → Bool
has_signature s height addr = Map.has s.signatures (height, addr)

-- The loop over the validators; `index` is a uint16, and a validator's power a uint64.
unfoldable pub index_validators : List Validator → ℕ → State → State
unfolding set_validator_index to_u64
index_validators [] index s = s
index_validators (val ∷ rest) index s =
    index_validators rest (if val.is_bonded then (index + 1) % u16_mod else index) (
      if val.is_bonded
      then set_validator_index val.operator_address index (to_u64 val.consensus_power) s
      else s)

unfoldable pub build_validator_index_map : Env → Exec Error State (Unit {0})
unfolding index_validators
build_validator_index_map env s = elim env.get_all_validators [
  | ok validators ↦ (
    ok tt,
    index_validators validators 0 (record s { validator_index = []; validator_power = [] }),
  )
  | err e ↦ (err e, s)
  | panic ↦ (panic, s)
]

-- A division by an epoch length of zero panics.
unfoldable pub get_current_epoch : ℤ → State → Outcome Error ℕ
unfolding get_params to_u64
get_current_epoch block_height s =
    let epoch_length = (get_params s).epoch_length in
    if epoch_length == 0 then panic else ok (to_u64 block_height / epoch_length)

unfoldable pub is_checkpoint_height : ℤ → State → Outcome Error Bool
unfolding to_u64
is_checkpoint_height height s = elim s.params [
  | none ↦ ok false
  | some p ↦ if p.epoch_length == 0 then panic else ok (to_u64 height % p.epoch_length == 0)
]

-- The loop over the bits of the bitmap, `rounds` of them from `i` on; the sum is a uint64.
voted_power_loop : State → Bytes → ℕ → ℕ → ℕ → Outcome Error ℕ
voted_power_loop s bitmap zero i voted_power = ok voted_power
voted_power_loop s bitmap (suc rounds) i voted_power = elim (is_set bitmap (pos i)) [
  | true ↦ elim (get_validator_power s (i % u16_mod)) [
    | ok power ↦ voted_power_loop s bitmap rounds (i + 1) ((voted_power + power) % u64_mod)
    | err e ↦ err e
    | panic ↦ panic
  ]
  | false ↦ voted_power_loop s bitmap rounds (i + 1) voted_power
]

unfoldable pub calculate_voted_power : Bytes → State → Outcome Error ℕ
unfolding voted_power_loop get_validator_power is_set
calculate_voted_power bitmap s = voted_power_loop s bitmap (length bitmap * 8) 0 0

unfoldable pub get_total_power : Env → Outcome Error ℕ
get_total_power env = then_ok env.get_last_total_power λ n. env.uint64 n

unfoldable pub check_quorum : Env → ℕ → ℕ → State → Outcome Error Bool
unfolding get_params to_i64
check_quorum env voted_power total_power s =
    then_ok (or_err (env.new_dec_from_str (get_params s).quorum_fraction) invalid_decimal)
      λ quorum_frac.
        then_ok
          (env.uint64 (env.truncate_int (env.mul (env.new_dec (to_i64 total_power)) quorum_frac)))
          λ required_power. ok (leb required_power voted_power)

unfoldable pub is_soft_confirmed : Env → ℤ → State → Outcome Error Bool
is_soft_confirmed env height s = elim (get_attestation_bitmap s height) [
  | none ↦ ok false
  | some bitmap ↦ then_ok (calculate_voted_power bitmap s) λ voted_power.
      then_ok (get_total_power env) λ total_power. check_quorum env voted_power total_power s
]

-- The ranges of Clear: from 0, inclusive, up to the bound.
abbrev in_range_ℤ : ℤ → ℤ → Bool
in_range_ℤ bound k = leb_ℤ (pos 0) k && ltb_ℤ k bound

unfoldable pub prune_old_bitmaps : ℕ → State → State
unfolding get_params to_i64
prune_old_bitmaps current_epoch s =
    let params = get_params s in
    let prune_before_epoch = current_epoch - params.prune_after in
    let prune_height = to_i64 (prune_before_epoch * params.epoch_length % u64_mod) in
    if params.prune_after == 0
    then s
    else if leb current_epoch params.prune_after
    then s
    else record s {
      attestation_bitmap = Map.restrict (λ k. not (in_range_ℤ prune_height k)) s.attestation_bitmap;
      stored_attestation_info =
          Map.restrict (λ k. not (in_range_ℤ prune_height k)) s.stored_attestation_info;
      epoch_bitmap = Map.restrict (λ e. not (ltb e prune_before_epoch)) s.epoch_bitmap;
    }
