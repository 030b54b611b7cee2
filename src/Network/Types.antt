-- ===== src/Network/Types.antt =====
-- modules/network/types: parameters, messages, genesis state; and what the module is given from
-- outside, as a record of functions.
pub mod Validate
use go_execution_abci.Prelude.{ℕ, String, Bool, List, Option, Eq, ◌==◌, ◌≡◌, ◌↔◌, ◌&&◌, arith}
use go_execution_abci.Prelude.{string_eq, true}
use go_execution_abci.Prelude.Int.{ℤ, ℤ_eq}
use go_execution_abci.Prelude.Map.{Map}
use go_execution_abci.Prelude.Exec.{Outcome}
use go_execution_abci.Network.Bitmap.{Bytes}

-- The errors that the module's functions return, by the registered error that they wrap; `external`
-- is an error that the staking keeper returned, and the last two are codes of gRPC.
pub data Error : Type 0 where
  invalid_request unauthorized not_found invalid_address invalid_signer : Error
  invalid_param invalid_decimal external invalid_argument status_not_found : Error

pub data SignMode : Type 0 where
  unspecified checkpoint : SignMode
  other : ℕ → SignMode

pub record Params : Type 0 where
  pub epoch_length : ℕ
  pub quorum_fraction : String
  pub min_participation : String
  pub prune_after : ℕ
  pub sign_mode : SignMode

pub record AttestationBitmap : Type 0 where
  pub height : ℤ
  pub bitmap : Bytes
  pub voted_power : ℕ
  pub total_power : ℕ
  pub soft_confirmed : Bool

pub record ValidatorIndex : Type 0 where
  pub address : String
  pub index : ℕ
  pub power : ℕ

pub record GenesisState : Type 0 where
  pub params : Params
  pub validator_indices : List ValidatorIndex
  pub attestation_bitmaps : List AttestationBitmap

pub record MsgAttest : Type 0 where
  pub validator : String
  pub height : ℤ
  pub vote : Bytes

pub record MsgUpdateParams : Type 0 where
  pub authority : String
  pub params : Params

pub record Event : Type 0 where
  pub kind : String
  pub attributes : List (String × String)

-- What the module reads of a validator of the staking module.
pub record Validator : Type 0 where
  pub operator_address : String
  pub is_bonded : Bool
  pub consensus_power : ℤ

-- The decimals of cosmossdk.io/math, the staking keeper, addresses and hashes, and the authority that
-- the keeper is built with. The staking keeper's answers are those within one call of the module.
pub record Env : Type 1 where
  pub LegacyDec : Type 0
  pub new_dec_from_str : String → Option LegacyDec
  pub new_dec : ℤ → LegacyDec
  pub zero_dec : LegacyDec
  pub one_dec : LegacyDec
  pub mul : LegacyDec → LegacyDec → LegacyDec
  pub quo_int64 : LegacyDec → ℤ → LegacyDec
  pub truncate_int : LegacyDec → ℤ
  pub lt : LegacyDec → LegacyDec → Bool
  pub lte : LegacyDec → LegacyDec → Bool
  pub gt : LegacyDec → LegacyDec → Bool
  pub uint64 : ℤ → Outcome Error ℕ
  pub int_string : ℤ → String
  pub get_all_validators : Outcome Error (List Validator)
  pub get_last_validators : Outcome Error (List Validator)
  pub get_validator : Bytes → Outcome Error Validator
  pub get_last_total_power : Outcome Error ℤ
  pub val_address_from_bech32 : String → Option Bytes
  pub sha256 : Bytes → Bytes
  pub encode_base64 : Bytes → String
  pub placeholder : Bytes
  pub authority : String

abbrev pub SignatureKey : Type 0
SignatureKey = ℤ × String

abbrev key_beq : SignatureKey → SignatureKey → Bool
key_beq (h, a) (k, b) = h == k && a == b

pub key_beq_iff : (a b : SignatureKey) → (key_beq a b ≡ true) ↔ (a ≡ b)
key_beq_iff (h, a) (k, b) = ground (arith, ℤ_eq.beq_iff h k, string_eq.beq_iff a b)

instance abbrev pub key_eq : Eq SignatureKey
key_eq = record { beq = key_beq; beq_iff = key_beq_iff }

-- The collections of the keeper's store, and the events that a call has emitted, newest first.
pub record State : Type 0 where
  pub validator_index : Map String ℕ
  pub validator_power : Map ℕ ℕ
  pub attestation_bitmap : Map ℤ Bytes
  pub epoch_bitmap : Map ℕ Bytes
  pub attester_set : Map String (Unit {0})
  pub signatures : Map SignatureKey Bytes
  pub stored_attestation_info : Map ℤ AttestationBitmap
  pub params : Option Params
  pub events : List Event
