-- ===== src/Tests/Samples.antt =====
-- A chain with three validators, of which two are bonded, and decimals as integers of units.
use go_execution_abci.Prelude.{
  ℕ, ◌*◌, ◌/◌, ◌≡◌, String, true, false, Option, none, some, [], ◌∷◌, arith, ltb, ◌==◌, nat_eq,
  string_eq, if◌then◌else◌,
}
use go_execution_abci.Prelude.Int.{ℤ, pos, negsuc, ltb_ℤ, leb_ℤ, u64_mod}
use go_execution_abci.Prelude.Exec.{Outcome, ok, err, panic}
use go_execution_abci.Network.Bitmap.{Bytes}
use go_execution_abci.Network.Types.{
  Error, external, checkpoint, Params, MsgAttest, Validator, Env, State,
}
use go_execution_abci.Network.Keeper.Quorum.{IsDecimal, one_unit}

abbrev pub alice : Validator
alice = record { operator_address = "alice"; is_bonded = true; consensus_power = pos 60 }

abbrev pub bob : Validator
bob = record { operator_address = "bob"; is_bonded = false; consensus_power = pos 10 }

abbrev pub carol : Validator
carol = record { operator_address = "carol"; is_bonded = true; consensus_power = pos 40 }

abbrev scale : ℤ → ℤ
scale (pos n) = pos (n * one_unit)
scale (negsuc n) = negsuc (n * one_unit)

abbrev times : ℤ → ℤ → ℤ
times (pos a) (pos b) = pos (a * b / one_unit)
times _ _ = pos 0

abbrev quotient : ℤ → ℤ → ℤ
quotient (pos a) (pos b) = pos (a / b)
quotient _ _ = pos 0

abbrev floor : ℤ → ℤ
floor (pos a) = pos (a / one_unit)
floor (negsuc a) = pos 0

abbrev to_uint64 : ℤ → Outcome Error ℕ
to_uint64 (pos n) = if ltb n u64_mod then ok n else panic
to_uint64 (negsuc n) = panic

abbrev parse : String → Option ℤ
parse text =
    if text == "0.667"
    then some (pos 667000000000000000)
    else if text == "0.5"
    then some (pos 500000000000000000)
    else none

abbrev find_validator : Bytes → Outcome Error Validator
find_validator [] = err external
find_validator (b ∷ _) =
    if b == 97
    then ok alice
    else if b == 98
    then ok bob
    else if b == 99
    then ok carol
    else err external

abbrev address_of : String → Option Bytes
address_of text =
    if text == "alice"
    then some (97 ∷ [])
    else if text == "bob"
    then some (98 ∷ [])
    else if text == "carol"
    then some (99 ∷ [])
    else none

abbrev pub chain : Env
chain = record {
  LegacyDec = ℤ;
  new_dec_from_str = parse;
  new_dec = scale;
  zero_dec = pos 0;
  one_dec = pos one_unit;
  mul = times;
  quo_int64 = quotient;
  truncate_int = floor;
  lt = ltb_ℤ;
  lte = leb_ℤ;
  gt = λ a b. ltb_ℤ b a;
  uint64 = to_uint64;
  int_string = λ n. "n";
  get_all_validators = ok (alice ∷ bob ∷ carol ∷ []);
  get_last_validators = ok (alice ∷ carol ∷ []);
  get_validator = find_validator;
  get_last_total_power = ok (pos 100);
  val_address_from_bech32 = address_of;
  sha256 = λ bytes. bytes;
  encode_base64 = λ bytes. "hash";
  placeholder = 0 ∷ [];
  authority = "gov";
}

pub scaled : (n a : ℕ) → n * one_unit * a / one_unit ≡ n * a
scaled n a = grind arith

abbrev pub chain_decimals : IsDecimal chain
chain_decimals = record {
  units = λ d. d;
  product = λ n a d e. ground (arith, scaled n a);
  truncated = λ n d e. ground arith;
  fits = λ n h. ground arith;
}

abbrev pub rules : Params
rules = record {
  epoch_length = 10;
  quorum_fraction = "0.667";
  min_participation = "0.5";
  prune_after = 2;
  sign_mode = checkpoint;
}

-- Alice and Carol attest; block 10 has Carol's bit, and no vote has come for block 20.
abbrev pub state : State
state = record {
  validator_index = ("alice", 0) ∷ ("carol", 1) ∷ [];
  validator_power = (0, 60) ∷ (1, 40) ∷ [];
  attestation_bitmap = (pos 10, 2 ∷ []) ∷ [];
  epoch_bitmap = (1, 2 ∷ []) ∷ [];
  attester_set = ("alice", tt) ∷ ("carol", tt) ∷ [];
  signatures = [];
  stored_attestation_info = [];
  params = some rules;
  events = [];
}

abbrev pub unset : State
unset = record state { params = none }

abbrev pub vote : MsgAttest
vote = record { validator = "alice"; height = pos 10; vote = 7 ∷ [] }
