-- ===== src/Manager/Types.antt =====
-- modules/rollkitmngr/types: messages, and what the module is given of public keys.
use go_execution_abci.Prelude.{ℕ, String, Bool, Option, List, nat_eq, string_eq}
use go_execution_abci.Prelude.Int.{ℤ}
use go_execution_abci.Prelude.Exec.{Outcome}

-- The errors, by the registered error that they wrap; `switch_binary` is the one that halts the chain
-- and `external` one that a package outside the repository returned.
pub data Error : Type 0 where
  invalid_signer invalid_request invalid_type logic switch_binary external : Error

-- What the module does with consensus public keys: the packed key of a validator or an attester, the
-- key that it unpacks to, and CometBFT's key. `zero_update` is ABCIValidatorUpdateZero's key.
pub record Keys : Type 1 where
  pub Key : Type 0
  pub PubKey : Type 0
  pub CmtKey : Type 0
  pub get_cached_value : Key → Option PubKey
  pub to_cmt_proto_public_key : PubKey → Outcome Error CmtKey
  pub equal : Key → Key → Bool
  pub key_string : Key → String
  pub cmt_key_string : CmtKey → String
  pub zero_update : Key → Outcome Error CmtKey
  pub cmt_cons_public_key : Key → Outcome Error CmtKey

-- What the module reads of a validator of the staking module.
pub record Validator (K : Type 0) : Type 0 where
  pub moniker : String
  pub consensus_pubkey : K

pub record Attester (K : Type 0) : Type 0 where
  pub name : String
  pub consensus_pubkey : K

pub record Sequencer (K : Type 0) : Type 0 where
  pub name : String
  pub consensus_pubkey : K

pub record RollkitMigration (K : Type 0) : Type 0 where
  pub block_height : ℕ
  pub sequencer : Sequencer K
  pub attesters : List (Attester K)

pub record ValidatorUpdate (C : Type 0) : Type 0 where
  pub pub_key : C
  pub power : ℤ

pub record MsgMigrateToRollkit (K : Type 0) : Type 0 where
  pub authority : String
  pub block_height : ℕ
  pub sequencer : Sequencer K
  pub attesters : List (Attester K)

-- The items of the keeper's store.
pub record State (K : Type 0) : Type 0 where
  pub sequencer : Option (Sequencer K)
  pub migration : Option (RollkitMigration K)
  pub migration_step : Option ℕ

abbrev pub ibc_smoothing_factor : ℕ
ibc_smoothing_factor = 30
