-- ===== src/Adapter/Types.antt =====
-- What pkg/store and pkg/adapter keep: the state of CometBFT, the application's answers, and errors. Of
-- the structures of other packages, the fields that the code names.
use go_execution_abci.Prelude.{ℕ, String, Option, List}
use go_execution_abci.Prelude.Int.{ℤ}
use go_execution_abci.Prelude.Exec.{Outcome, Exec}
use go_execution_abci.Compat.Types.{Bytes, BlockId, CometHeader, Block}

pub record Validator : Type 0 where
  pub address : Bytes
  pub pub_key : Bytes
  pub voting_power : ℤ
  pub proposer_priority : ℤ

-- A set whose proposer is nil panics where its address is read.
pub record ValidatorSet : Type 0 where
  pub validators : List Validator
  pub proposer : Option Validator

-- The maximal size of a block, and the other parameters, which the code does not read, as bytes.
pub record ConsensusParams : Type 0 where
  pub block_max_bytes : ℤ
  pub others : Bytes

-- cmtstate.State.
pub record CometState : Type 0 where
  pub chain_id : String
  pub last_block_height : ℤ
  pub validators : ValidatorSet
  pub next_validators : ValidatorSet
  pub last_validators : ValidatorSet
  pub last_height_validators_changed : ℤ
  pub consensus_params : ConsensusParams
  pub last_height_consensus_params_changed : ℤ
  pub app_hash : Bytes

pub record TxResult : Type 0 where
  pub code : ℕ
  pub content : Bytes

-- abci.ValidatorUpdate.
pub record ValidatorUpdate : Type 0 where
  pub pub_key : Bytes
  pub power : ℤ

-- abci.ResponseFinalizeBlock. An event of the application stands as bytes.
pub record FinalizeResponse : Type 0 where
  pub events : List Bytes
  pub tx_results : List TxResult
  pub validator_updates : List ValidatorUpdate
  pub consensus_param_updates : Option Bytes
  pub app_hash : Bytes

-- The errors of the code, and those of the packages it calls, which it wraps: `missing` is the error of a
-- datastore for a key that is not there.
pub data Error : Type 0 where
  missing database marshal unmarshal not_found : Error
  no_genesis time_mismatch chain_id_mismatch height_mismatch not_one_validator : Error
  no_header rejected updates change_set params app mempool part_set bus header : Error

-- The methods of pkg/store over a database of type D.
pub record Store (D : Type 0) : Type 0 where
  pub load_state : D → Outcome Error CometState
  pub save_state : CometState → Exec Error D (Unit {0})
  pub get_block_id : ℕ → D → Outcome Error BlockId
  pub save_block_id : ℕ → BlockId → Exec Error D (Unit {0})
  pub get_block_response : ℕ → D → Outcome Error FinalizeResponse
  pub save_block_response : ℕ → FinalizeResponse → Exec Error D (Unit {0})

-- What is published on the event bus.
pub data Published : Type 0 where
  new_block : Block → BlockId → FinalizeResponse → Published
  new_block_header : CometHeader → Published
  new_block_events : ℤ → List Bytes → ℕ → Published
  new_evidence : Bytes → ℤ → Published
  tx : ℤ → ℕ → Bytes → TxResult → Published
  validator_set_updates : List Validator → Published

-- The response is a pointer: the number of a cell of the heap.
pub record StackedEvent : Type 0 where
  pub block_id : BlockId
  pub block : Block
  pub abci_response : ℕ
  pub validator_updates : List Validator

-- The adapter: its database, the application and the mempool it calls, what it has published, the
-- responses it has pointers to, and the queue of events.
pub record Adapter (D A M : Type 0) : Type 0 where
  pub db : D
  pub application : A
  pub mempool : M
  pub published : List Published
  pub heap : List FinalizeResponse
  pub stacked_events : List StackedEvent
