-- ===== src/Rpc/Types.antt =====
-- pkg/rpc/core: what the answers are made of, and what the queries read.
use go_execution_abci.Prelude.{ℕ, String, Option, List}
use go_execution_abci.Prelude.Int.{ℤ}
use go_execution_abci.Prelude.Exec.{Outcome}
use go_execution_abci.Compat.{CompatError}
use go_execution_abci.Compat.Types.{Bytes, SignedHeader, BlockId, Commit, CometHeader, Block, Comet}
use go_execution_abci.Adapter.Types.{Error, FinalizeResponse}
use go_execution_abci.Rpc.Paging.{PageError}
use go_execution_abci.Rpc.Heights.{HeightError}

pub data RpcError : Type 0 where
  store : Error → RpcError
  compat : CompatError → RpcError
  page : PageError → RpcError
  height : HeightError → RpcError
  bad_order bad_length not_found no_validator : RpcError

-- ctypes.ResultBlock. A block that is not there is nil.
pub record ResultBlock : Type 0 where
  pub block_id : BlockId
  pub block : Option Block

pub record ResultCommit : Type 0 where
  pub header : CometHeader
  pub commit : Commit

-- The stores of the adapter, the adapter's GetLastCommit, and the index of blocks. GetBlockData may
-- return a nil header or nil data, which is none here.
pub record RpcEnv : Type 0 where
  pub comet : Comet
  pub get_block_data : ℕ → Outcome Error (Option (SignedHeader × List Bytes))
  pub get_block_by_hash : Bytes → Outcome Error (SignedHeader × List Bytes)
  pub get_last_commit : ℕ → Outcome Error Commit
  pub get_block_response : ℕ → Outcome Error FinalizeResponse
  pub height : Outcome HeightError ℕ
  pub da_included_height : Outcome Error Bytes
  pub search_blocks : String → Outcome Error (List ℤ)
