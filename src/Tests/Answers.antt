-- ===== src/Tests/Answers.antt =====
-- Answers of the RPC calls on small chains, documents and mempools.
use Prim.Native.Char.{code as code_of}
use Prim.Native.String.{[] as nil, ◌∷◌ as cons}
use go_execution_abci.Prelude.{
  ℕ, zero, suc, ◌+◌, ◌-◌, ◌≤◌, ◌<◌, ◌≡◌, ◌↔◌, refl, ap, ◌∙◌, String, Bool, true, false, ltb,
  if◌then◌else◌, ◌==◌, nat_eq, min, Option, none, some, List, [], ◌∷◌, arith,
}
use go_execution_abci.Prelude.Int.{pos}
use go_execution_abci.Prelude.Exec.{ok, err, panic, Exec}
use go_execution_abci.Compat.Types.{Bytes}
use go_execution_abci.Adapter.Types.{missing}
use go_execution_abci.Rpc.Paging.{page_count}
use go_execution_abci.Rpc.Types.{RpcEnv}
use go_execution_abci.Rpc.Heights.{filter_min_max, bounded_range}
use go_execution_abci.Rpc.Blocks.{
  get_block_meta, block_metas, rounds_between, blockchain_info, info_limit,
}
use go_execution_abci.Rpc.Blocks.Range.{Metas, blockchain_info_lem}
use go_execution_abci.Rpc.Search.Pages.{joined_pages}
use go_execution_abci.Tests.Sorts.{insertion, insertion-IsSorter}
use go_execution_abci.Rpc.Search.Order.{InOrder, IsOrder, joined_pages-slice}
use mathlib.Core.List.{Perm}
use go_execution_abci.Rpc.Chunks.{genesis_chunks}
use go_execution_abci.Rpc.Chunks.Join.{join, genesis_chunks-join}
use go_execution_abci.Rpc.Net.{PeerInfo, net_info, App, abci_query, abci_info}
use go_execution_abci.Staking.{apply_and_return_validator_set_updates, slash, jail}
use go_execution_abci.Rpc.Broadcast.{Node, code}
use go_execution_abci.Tests.Chains.{comet}

-- A chain of height 3 whose blocks are not there.
abbrev rpc_env : RpcEnv
rpc_env = record {
  comet = comet;
  get_block_data = λ n. err missing;
  get_block_by_hash = λ hash. err missing;
  get_last_commit = λ n. err missing;
  get_block_response = λ n. err missing;
  height = ok 3;
  da_included_height = err missing;
  search_blocks = λ query. ok [];
}

info : blockchain_info rpc_env (pos 0) (pos 2) ≡ ok (pos 3, none ∷ none ∷ [])
unfolding blockchain_info filter_min_max bounded_range block_metas rounds_between get_block_meta
info = refl

blockchain_info_lem_example :
    (pos 3 ≡ pos 3)
    × (a : ℕ) × (b : ℕ) × (b ≡ min 3 2)
    × (2 ≡ b + 1 - a)
    × Metas rpc_env b (none ∷ none ∷ [])
    × ((n : ℕ) → ((a ≤ n) × (n ≤ b)) ↔ ((1 ≤ n) × (0 ≤ n) × (n ≤ b) × (b < n + info_limit)))
blockchain_info_lem_example =
    blockchain_info_lem rpc_env 3 0 2 (pos 3) (none ∷ none ∷ []) refl (omega arith) (omega arith)
      info

abbrev before : ℕ → ℕ → Bool
before a b = ltb a b

before-IsOrder : IsOrder before
before-IsOrder = record {
  asymmetric = λ a b h. ground arith;
  negatively_transitive = λ a b c h k. ground arith;
}

joined_pages-slice_example :
    (ys : List ℕ) × (joined_pages (insertion.slice before (3 ∷ 1 ∷ 2 ∷ [])) 2 (page_count 3 2)
      ≡ ok ys)
    × InOrder before ys
    × Perm ys (3 ∷ 1 ∷ 2 ∷ [])
joined_pages-slice_example =
    joined_pages-slice insertion before (3 ∷ 1 ∷ 2 ∷ []) 2 insertion-IsSorter before-IsOrder
      (omega arith) (omega arith) (omega arith)

-- Bytes in unary, each closed by a 0.
abbrev digits : ℕ → String → String
digits zero s = cons "0" s
digits (suc n) s = cons "1" (digits n s)

abbrev encode : Bytes → String
encode [] = ""
encode (b ∷ bs) = digits b (encode bs)

abbrev one_more : Bytes → Bytes
one_more [] = []
one_more (b ∷ bs) = suc b ∷ bs

abbrev decode : String → Bytes
decode nil = []
decode (cons c s) = let rest = decode s in if code_of c == 48 then 0 ∷ rest else one_more rest

decode-digits : (b : ℕ) (s : String) → decode (digits b s) ≡ b ∷ decode s
decode-digits zero s = refl
decode-digits (suc b) s = ap one_more (decode-digits b s)

decode-encode : (bytes : Bytes) → decode (encode bytes) ≡ bytes
decode-encode [] = refl
decode-encode (b ∷ bs) = decode-digits b (encode bs) ∙ ap (λ r. b ∷ r) (decode-encode bs)

genesis_chunks-join_example :
    (chunks : List String) × (genesis_chunks encode (ok (some (3 ∷ 1 ∷ []))) ≡ ok chunks)
    × (join decode chunks ≡ 3 ∷ 1 ∷ [])
genesis_chunks-join_example = genesis_chunks-join encode decode decode-encode (3 ∷ 1 ∷ [])

-- A mempool that holds one transaction at most, and a gossip that fails.
abbrev node : Node (Option Bytes)
node = record {
  check_tx = λ tx m. (ok tt, some tx);
  remove_tx = λ tx m. none;
  publish = λ tx. false;
  reap = λ m. [];
  size = λ m. 0;
  size_bytes = λ m. pos 0;
}

-- A network of one peer, and an application whose query answers with nil.
alone : (net_info none).peers ≡ some []
unfolding net_info
alone = refl

abbrev peer : PeerInfo
peer = record {
  node_id = "node";
  listen_addr = "addr";
  network = "chain";
  is_outbound = true;
  remote_ip = "ip";
}

connected : (net_info (some record { addrs = "here" ∷ []; peers = peer ∷ [] })).n_peers ≡ 1
unfolding net_info
connected = refl

abbrev silent : App String ℕ ℕ
silent = record { query = λ q. ok none; info = ok (some 5) }

queried : abci_query silent "/path" [] (pos 1) false ≡ panic
unfolding abci_query
queried = refl

informed : abci_info silent ≡ ok 5
unfolding abci_info
informed = refl

-- The staking keeper counts its calls; the updates are passed on at the genesis block alone.
abbrev counted : Exec String ℕ (List ℕ)
counted n = (ok (7 ∷ []), n + 1)

at_genesis : apply_and_return_validator_set_updates (pos 0) counted 3 ≡ (ok (7 ∷ []), 4)
unfolding apply_and_return_validator_set_updates
at_genesis = refl

later : apply_and_return_validator_set_updates (pos 9) counted 3 ≡ (ok [], 4)
unfolding apply_and_return_validator_set_updates
later = refl

unpunished :
    (slash {E = String} {S = ℕ} 3 ≡ (ok (pos 0), 3)) × (jail {E = String} {S = ℕ} 3 ≡ (ok tt, 3))
unfolding slash jail
unpunished = (refl, refl)
