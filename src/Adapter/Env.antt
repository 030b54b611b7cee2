-- ===== src/Adapter/Env.antt =====
-- What pkg/adapter/adapter.go calls: the requests of the application, the genesis document, and the
-- functions of the application, of the mempool and of CometBFT.
use go_execution_abci.Prelude.{ℕ, String, Bool, Option, List}
use go_execution_abci.Prelude.Int.{ℤ}
use go_execution_abci.Prelude.Exec.{Outcome, Exec}
use go_execution_abci.Compat.Types.{Bytes, SignedHeader, Commit, Block, Comet}
use go_execution_abci.Adapter.Types.{
  Error, Validator, ValidatorSet, ConsensusParams, CometState, TxResult, ValidatorUpdate,
  FinalizeResponse, Store, Published,
}
use go_execution_abci.Adapter.Commit.{CommitInfo}

-- abci.RequestProcessProposal and abci.RequestFinalizeBlock, which get the same values.
pub record BlockRequest : Type 0 where
  pub hash : Bytes
  pub height : ℤ
  pub time : ℕ
  pub txs : List Bytes
  pub last_commit : CommitInfo
  pub proposer_address : Bytes
  pub next_validators_hash : Bytes

pub record PrepareRequest : Type 0 where
  pub txs : List Bytes
  pub max_tx_bytes : ℤ
  pub height : ℤ
  pub next_validators_hash : Bytes
  pub proposer_address : Bytes

pub record InitRequest : Type 0 where
  pub time : ℕ
  pub chain_id : String
  pub consensus_params : ConsensusParams
  pub validators : ValidatorSet
  pub app_state : Bytes
  pub initial_height : ℤ

pub record InitResponse : Type 0 where
  pub consensus_params : Option ConsensusParams
  pub validators : List ValidatorUpdate
  pub app_hash : Bytes

-- The genesis document of the application.
pub record AppGenesis : Type 0 where
  pub genesis_time : ℕ
  pub chain_id : String
  pub initial_height : ℤ
  pub validators : List Validator
  pub consensus_params : ConsensusParams
  pub app_state : Bytes

pub record Env (D A M : Type 0) : Type 0 where
  pub store : Store D
  pub comet : Comet
  pub get_header : ℕ → Outcome Error SignedHeader
  pub height : Outcome Error ℕ
  -- ProcessProposal: whether the status is ACCEPT.
  pub process_proposal : BlockRequest → Exec Error A Bool
  pub finalize_block : BlockRequest → Exec Error A FinalizeResponse
  pub commit : Exec Error A (Unit {0})
  pub prepare_proposal : PrepareRequest → Exec Error A (List Bytes)
  pub init_chain : InitRequest → Exec Error A InitResponse
  pub flush : Exec Error M (Unit {0})
  pub update : ℤ → List Bytes → List TxResult → CometState → Exec Error M (Unit {0})
  pub reap : ℤ → M → List Bytes
  -- PB2TM.ValidatorUpdates, NewValidatorSet, UpdateWithChangeSet, IncrementProposerPriority(1) on a copy,
  -- and Hash.
  pub validator_updates : List ValidatorUpdate → Option (List Validator)
  pub new_validator_set : List Validator → ValidatorSet
  pub update_with_change_set : ValidatorSet → List Validator → Option ValidatorSet
  pub increment_proposer_priority : ValidatorSet → Outcome Error ValidatorSet
  pub validators_hash : ValidatorSet → Bytes
  pub update_params : ConsensusParams → Bytes → ConsensusParams
  pub validate_basic : ConsensusParams → Bool
  pub validate_update : ConsensusParams → Bytes → ℤ → Bool
  pub make_block : CometState → ℤ → List Bytes → Commit → Bytes → Block
  pub is_publishable : ℤ → Bool
  pub bus_accepts : List Published → Published → Bool
