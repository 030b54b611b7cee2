-- ===== src/Rpc/Blocks.antt =====
-- pkg/rpc/core/blocks.go, and getBlockMeta of utils.go: blocks, headers, commits and results by height or
-- by hash.
pub mod Range
use go_execution_abci.Prelude.{
  ℕ, zero, suc, ◌+◌, ◌-◌, ◌*◌, ◌%◌, ◌==◌, nat_eq, if◌then◌else◌, length, Option, none, some, List,
  [], ◌∷◌,
}
use go_execution_abci.Prelude.Int.{
  ℤ, pos, negsuc, ℤ_eq, ◌+ℤ◌, ◌-ℤ◌, pos_part, to_i64, to_u64, u64_mod,
}
use go_execution_abci.Prelude.Exec.{Outcome, ok, err, panic, then_ok, map_err}
use go_execution_abci.Compat.{to_abci_header, to_abci_block, to_abci_block_meta}
use go_execution_abci.Compat.Types.{
  Bytes, SignedHeader, BlockId, Commit, CometHeader, Block, BlockMeta,
}
use go_execution_abci.Adapter.Types.{FinalizeResponse}
use go_execution_abci.Rpc.Types.{
  RpcError, store, compat, height, bad_length, not_found, ResultBlock, ResultCommit, RpcEnv,
}
use go_execution_abci.Rpc.Heights.{normalize_height, filter_min_max}

-- binary.LittleEndian.Uint64, of eight bytes.
unfoldable pub little_endian : Bytes → ℕ
little_endian [] = 0
little_endian (b ∷ bs) = b + 256 * little_endian bs

-- The value of a call whose errors are only logged.
abbrev pub value : {E A : Type 0} → Outcome E A → Outcome E (Option A)
value (ok a) = ok (some a)
value (err e) = ok none
value panic = panic

abbrev pub info_limit : ℕ
info_limit = 20

-- The rounds of the loop from a last height down to a first one.
unfoldable pub rounds_between : ℤ → ℤ → ℕ
unfolding ◌-ℤ◌ ◌+ℤ◌
rounds_between first last = pos_part (last -ℤ first +ℤ pos 1)

module _ (env : RpcEnv) where
  -- The block of a header and its transactions.
  unfoldable pub comet_block : ℕ → SignedHeader → List Bytes → Outcome RpcError Block
  unfolding to_abci_block
  comet_block n signed txs = then_ok (map_err store (env.get_last_commit n)) λ last_commit.
      then_ok (map_err compat (to_abci_header env.comet signed.header last_commit))
        λ header. ok (to_abci_block env.comet header last_commit txs)

  unfoldable pub block_and_meta :
      ℕ → Option (SignedHeader × List Bytes) → Outcome RpcError (BlockMeta × Block)
  unfolding comet_block
  block_and_meta n none = err not_found
  block_and_meta n (some (signed, txs)) = then_ok (comet_block n signed txs) λ block.
      then_ok (map_err compat (to_abci_block_meta env.comet block)) λ meta. ok (meta, block)

  -- Any failure gives nil.
  unfoldable pub get_block_meta : ℕ → Outcome RpcError (Option (BlockMeta × Block))
  unfolding block_and_meta
  get_block_meta n =
      value (then_ok (map_err store (env.get_block_data n)) λ data'. block_and_meta n data')

  -- A block with the id that is made of its header and its parts.
  unfoldable pub result_block : ℕ → SignedHeader → List Bytes → Outcome RpcError ResultBlock
  unfolding comet_block
  result_block n signed txs = then_ok (comet_block n signed txs) λ block.
      then_ok (map_err compat (to_abci_block_meta env.comet block))
        λ meta. ok record { block_id = meta.block_id; block = some block }

  abbrev or_nil : Option (BlockMeta × Block) → ResultBlock
  or_nil none = record { block_id = env.comet.empty_block_id; block = none }
  or_nil (some (meta, block)) = record { block_id = meta.block_id; block = some block }

  unfoldable pub block_height : Option ℤ → Outcome RpcError ℕ
  unfolding little_endian normalize_height
  block_height none = map_err height (normalize_height none env.height)
  block_height (some h) =
      if h == negsuc 0
      then then_ok (map_err store env.da_included_height)
          (λ bytes. if length bytes == 8 then ok (little_endian bytes) else err bad_length)
      else map_err height (normalize_height (some h) env.height)

  unfoldable pub block : Option ℤ → Outcome RpcError ResultBlock
  unfolding block_height get_block_meta
  block h = then_ok (block_height h) λ n. then_ok (get_block_meta n) λ found. ok (or_nil found)

  unfoldable pub block_by_hash : Bytes → Outcome RpcError ResultBlock
  unfolding result_block
  block_by_hash hash =
      then_ok (map_err store (env.get_block_by_hash hash))
        λ found. result_block found.0.header.height (found.0) (found.1)

  abbrev commit_with : Option (BlockMeta × Block) → ℕ → Outcome RpcError (Option ResultCommit)
  commit_with none n = ok none
  commit_with (some (meta, block)) n =
      then_ok (map_err store (env.get_last_commit ((n + 1) % u64_mod)))
        λ commit. ok (some record { header = meta.header; commit = commit })

  -- The commit of a height is the last commit at the next one.
  unfoldable pub commit : Option ℤ → Outcome RpcError (Option ResultCommit)
  unfolding normalize_height get_block_meta
  commit h =
      then_ok (map_err height (normalize_height h env.height))
        λ n. then_ok (get_block_meta n) λ found. commit_with found n

  unfoldable pub block_results : Option ℤ → Outcome RpcError (ℤ × FinalizeResponse)
  unfolding normalize_height to_i64
  block_results h =
      then_ok (map_err height (normalize_height h env.height))
        λ n. then_ok (map_err store (env.get_block_response n)) λ response. ok (to_i64 n, response)

  abbrev header_with : Option (BlockMeta × Block) → Outcome RpcError CometHeader
  header_with none = err not_found
  header_with (some (meta, block)) = ok meta.header

  unfoldable pub header : Option ℤ → Outcome RpcError CometHeader
  unfolding normalize_height get_block_meta
  header h =
      then_ok (map_err height (normalize_height h env.height))
        λ n. then_ok (get_block_meta n) λ found. header_with found

  unfoldable pub header_by_hash : Bytes → Outcome RpcError CometHeader
  unfolding to_abci_header
  header_by_hash hash = then_ok (map_err store (env.get_block_by_hash hash)) λ found.
      then_ok (map_err store (env.get_last_commit found.0.header.height))
        λ last_commit. map_err compat (to_abci_header env.comet found.0.header last_commit)

  abbrev meta_of : Option (BlockMeta × Block) → Option BlockMeta
  meta_of none = none
  meta_of (some (meta, block)) = some meta

  -- The loop from the last height downwards, of so many rounds. A block that is not there is nil.
  unfoldable pub block_metas : ℤ → ℕ → Outcome RpcError (List (Option BlockMeta))
  unfolding get_block_meta to_u64 ◌-ℤ◌
  block_metas h zero = ok []
  block_metas h (suc rounds) =
      then_ok (get_block_meta (to_u64 h))
        λ found. then_ok (block_metas (h -ℤ pos 1) rounds) λ rest. ok (meta_of found ∷ rest)

  unfoldable pub blockchain_info : ℤ → ℤ → Outcome RpcError (ℤ × List (Option BlockMeta))
  unfolding filter_min_max block_metas rounds_between to_i64
  blockchain_info min_height max_height = then_ok (map_err height env.height) λ h.
      then_ok
        (map_err height (filter_min_max (pos 0) (to_i64 h) min_height max_height (pos info_limit)))
        λ range.
          then_ok (block_metas (range.1) (rounds_between (range.0) (range.1)))
            λ metas. ok (to_i64 h, metas)
