-- ===== src/Rpc/Consensus.antt =====
-- pkg/rpc/core/consensus.go and status.go: the validator, the parameters and the status of the node.
use go_execution_abci.Prelude.{
  ℕ, String, ◌==◌, nat_eq, if◌then◌else◌, Option, none, some, List, [], ◌∷◌,
}
use go_execution_abci.Prelude.Int.{ℤ, pos, to_i64, to_u64}
use go_execution_abci.Prelude.Exec.{Outcome, ok, err, then_ok, map_err}
use go_execution_abci.Compat.Types.{Bytes, SignedHeader}
use go_execution_abci.Adapter.Types.{Error, Validator, ConsensusParams, CometState}
use go_execution_abci.Adapter.Env.{AppGenesis}
use go_execution_abci.Rpc.Heights.{HeightError, normalize_height, truncate_node_id}
use go_execution_abci.Rpc.Types.{RpcError, store, height, no_validator}

-- The one validator of the genesis document.
abbrev genesis_validator : List Validator → Outcome RpcError Validator
genesis_validator [] = err no_validator
genesis_validator (v ∷ []) = ok v
genesis_validator (v ∷ w ∷ rest) = err no_validator

pub record ResultValidators : Type 0 where
  pub block_height : ℤ
  pub validators : List Validator
  pub count : ℕ
  pub total : ℕ

-- The store's height is given to each call that needs it.
unfoldable pub validators :
    AppGenesis → Outcome HeightError ℕ → Option ℤ → Outcome RpcError ResultValidators
unfolding normalize_height to_i64
validators genesis store_height h = then_ok (map_err height (normalize_height h store_height)) λ n.
    then_ok (genesis_validator genesis.validators) λ v. ok record {
      block_height = to_i64 n;
      validators = record v { proposer_priority = pos 1 } ∷ [];
      count = 1;
      total = 1;
    }

-- The parameters but for those of ABCI, which `without_abci` leaves out of the others.
unfoldable pub consensus_params :
    (Bytes → Bytes)
    → Outcome Error CometState
    → Outcome HeightError ℕ
    → Option ℤ
    → Outcome RpcError (ℤ × ConsensusParams)
unfolding normalize_height to_i64
consensus_params without_abci loaded store_height h =
    then_ok (map_err height (normalize_height h store_height)) λ n.
      then_ok (map_err store loaded) λ s.
        ok (to_i64 n, record s.consensus_params { others = without_abci s.consensus_params.others })

-- ctypes.SyncInfo; without a block the latest hashes are nil.
pub record SyncInfo : Type 0 where
  pub latest_block_hash : Bytes
  pub latest_app_hash : Bytes
  pub latest_block_height : ℤ
  pub latest_block_time : Option ℕ
  pub earliest_block_hash : Bytes
  pub earliest_app_hash : Bytes
  pub earliest_block_height : ℤ
  pub earliest_block_time : ℕ

pub record Status : Type 0 where
  pub node_id : String
  pub sync_info : SyncInfo
  pub validator : Validator

module _ (get_header : ℕ → Outcome Error SignedHeader) where
  abbrev latest : ℕ → Outcome RpcError (Option SignedHeader)
  latest n = if n == 0 then ok none else then_ok (map_err store (get_header n)) (λ h. ok (some h))

  abbrev sync_info : ℕ → Option SignedHeader → SignedHeader → SyncInfo
  sync_info n last initial = record {
    latest_block_hash = elim last [ none ↦ [] | some h ↦ h.header.data_hash ];
    latest_app_hash = elim last [ none ↦ [] | some h ↦ h.header.app_hash ];
    latest_block_height = to_i64 n;
    latest_block_time = elim last [ none ↦ none | some h ↦ some h.header.time ];
    earliest_block_hash = initial.header.data_hash;
    earliest_app_hash = initial.header.app_hash;
    earliest_block_height = to_i64 initial.header.height;
    earliest_block_time = initial.header.time;
  }

  -- `state` tells whether the state of Rollkit's store could be read, `node_id` is the id of the P2P
  -- client, and `decode` and `encode` are those of encoding/hex.
  unfoldable pub status :
      (String → Option Bytes)
      → (Bytes → String)
      → AppGenesis
      → Outcome HeightError ℕ
      → Outcome Error (Unit {0})
      → Outcome Error String
      → Outcome RpcError Status
  unfolding truncate_node_id to_i64 to_u64
  status decode encode genesis store_height state node_id =
      then_ok (map_err height store_height) λ n. then_ok (latest n) λ last.
        then_ok (map_err store (get_header (to_u64 genesis.initial_height))) λ initial.
          then_ok (genesis_validator genesis.validators) λ v. then_ok (map_err store state) λ _.
            then_ok (map_err store node_id) λ id.
              then_ok (map_err height (truncate_node_id decode encode id)) λ short. ok record {
                node_id = short;
                sync_info = sync_info n last initial;
                validator = record v { voting_power = pos 1 };
              }
