-- ===== src/Rpc/Search.antt =====
-- pkg/rpc/core: BlockSearch of blocks.go and TxSearch of tx.go, which sort the results of an index and
-- answer with one page of them.
pub mod Pages
pub mod Order
use go_execution_abci.Prelude.{
  ℕ, zero, suc, ◌-◌, String, Bool, true, false, ◌==◌, nat_eq, string_eq, if◌then◌else◌, ltb, length,
  get_elem?, take, drop, Option, none, some, List, [], ◌∷◌,
}
use go_execution_abci.Prelude.Int.{ℤ, pos, negsuc, ◌-ℤ◌, min_ℤ, ltb_ℤ, ℤ_eq, to_u64}
use go_execution_abci.Prelude.Exec.{Outcome, ok, err, panic, then_ok, map_err}
use go_execution_abci.Compat.Types.{Bytes, SignedHeader}
use go_execution_abci.Adapter.Types.{Error, TxResult}
use go_execution_abci.Rpc.Paging.{validate_per_page, validate_page, validate_skip_count}
use go_execution_abci.Rpc.Types.{RpcError, store, page, bad_order, not_found, ResultBlock, RpcEnv}
use go_execution_abci.Rpc.Blocks.{result_block}

-- sort.Slice, by a test of which of two items comes first.
pub record Sorter : Type 1 where
  pub slice : {A : Type 0} → (A → A → Bool) → List A → List A

-- What comes first in the order that is asked for; "asc" is the default.
unfoldable pub ordering : {A : Type 0} → (A → A → Bool) → String → Outcome RpcError (A → A → Bool)
ordering less order_by =
    if order_by == "desc"
    then ok (λ a b. less b a)
    else if order_by == "asc"
    then ok less
    else if order_by == ""
    then ok less
    else err bad_order

-- The loop over the results from `skip` on, `size` of them; a negative capacity panics.
unfoldable pub items : {A : Type 0} → List A → ℤ → ℤ → Outcome RpcError (List A)
items results (pos skip) (pos size) = ok (take size (drop skip results))
items results (pos skip) (negsuc n) = panic
items results (negsuc n) size = panic

unfoldable pub page_items : {A : Type 0} → List A → Option ℤ → Option ℤ → Outcome RpcError (List A)
unfolding validate_per_page validate_page validate_skip_count items ◌-ℤ◌
page_items results page_ptr per_page_ptr =
    let total = pos (length results) in
    let per_page = validate_per_page per_page_ptr in
    then_ok (map_err page (validate_page page_ptr per_page total)) λ page_val.
      let skip = validate_skip_count page_val per_page in
      items results skip (min_ℤ per_page (total -ℤ skip))

abbrev pub map_ok : {A B : Type 0} → (A → Outcome RpcError B) → List A → Outcome RpcError (List B)
map_ok f [] = ok []
map_ok f (x ∷ xs) = then_ok (f x) λ y. then_ok (map_ok f xs) λ ys. ok (y ∷ ys)

-- A result of the index of transactions.
pub record TxFound : Type 0 where
  pub height : ℤ
  pub index : ℕ
  pub tx : Bytes
  pub result : TxResult

unfoldable pub tx_less : TxFound → TxFound → Bool
tx_less a b = if a.height == b.height then ltb a.index b.index else ltb_ℤ a.height b.height

-- merkle.ProofsFromByteSlices and tmhash.Sum.
pub record Merkle : Type 0 where
  pub sum : Bytes → Bytes
  pub root : List Bytes → Bytes
  pub proof : List Bytes → ℕ → Bytes

pub record TxProof : Type 0 where
  pub root_hash : Bytes
  pub tx : Bytes
  pub proof : Bytes

pub record ResultTx : Type 0 where
  pub hash : Bytes
  pub found : TxFound
  pub proof : Option TxProof

abbrev pub hash_list : Merkle → List Bytes → List Bytes
hash_list merkle [] = []
hash_list merkle (t ∷ txs) = merkle.sum t ∷ hash_list merkle txs

-- An index past the transactions of the block panics.
unfoldable pub proof_tx_exists : Merkle → List Bytes → ℕ → Outcome RpcError TxProof
proof_tx_exists merkle txs i = elim (get_elem? txs i) [
  | none ↦ panic
  | some t ↦ ok record {
    root_hash = merkle.root (hash_list merkle txs);
    tx = t;
    proof = merkle.proof (hash_list merkle txs) i;
  }
]

module _ (env : RpcEnv) where
  abbrev block_found : ℕ → Option (SignedHeader × List Bytes) → Outcome RpcError ResultBlock
  block_found n none = panic
  block_found n (some (signed, txs)) = result_block env n signed txs

  abbrev block_at : ℤ → Outcome RpcError ResultBlock
  block_at height =
      then_ok (map_err store (env.get_block_data (to_u64 height)))
        λ found. block_found (to_u64 height) found

  unfoldable pub block_search :
      Sorter → String → Option ℤ → Option ℤ → String → Outcome RpcError (List ResultBlock × ℕ)
  unfolding ordering page_items result_block to_u64
  block_search sorter query page_ptr per_page_ptr order_by =
      then_ok (map_err store (env.search_blocks query)) λ results.
        then_ok (ordering ltb_ℤ order_by) λ before.
          then_ok (page_items (sorter.slice before results) page_ptr per_page_ptr)
            λ heights. then_ok (map_ok block_at heights) λ blocks. ok (blocks, length results)

  module _ (merkle : Merkle) where
    abbrev data_of : Option (SignedHeader × List Bytes) → ℕ → Outcome RpcError TxProof
    data_of none i = panic
    data_of (some (signed, txs)) i = proof_tx_exists merkle txs i

    unfoldable pub build_proof : ℤ → ℕ → Outcome RpcError TxProof
    unfolding proof_tx_exists to_u64
    build_proof block_height i =
        then_ok (map_err store (env.get_block_data (to_u64 block_height))) λ found. data_of found i

    abbrev proved : Bool → TxFound → Outcome RpcError (Option TxProof)
    proved true r = then_ok (build_proof r.height r.index) λ proof. ok (some proof)
    proved false r = ok none

    unfoldable pub tx :
        (Bytes → Outcome Error (Option TxFound)) → Bytes → Bool → Outcome RpcError ResultTx
    unfolding build_proof
    tx get hash prove = then_ok (map_err store (get hash)) λ found. elim found [
      | none ↦ err not_found
      | some r ↦
          then_ok (proved prove r) λ proof. ok record { hash = hash; found = r; proof = proof }
    ]

    abbrev result_tx : Bool → TxFound → Outcome RpcError ResultTx
    result_tx prove r =
        then_ok (proved prove r)
          λ proof. ok record { hash = merkle.sum r.tx; found = r; proof = proof }

    -- `search` is that of the index of transactions.
    unfoldable pub tx_search :
        Sorter
        → (String → Outcome Error (List TxFound))
        → String
        → Bool
        → Option ℤ
        → Option ℤ
        → String
        → Outcome RpcError (List ResultTx × ℕ)
    unfolding build_proof ordering page_items tx_less
    tx_search sorter search query prove page_ptr per_page_ptr order_by =
        then_ok (map_err store (search query)) λ results.
          then_ok (ordering tx_less order_by) λ before.
            then_ok (page_items (sorter.slice before results) page_ptr per_page_ptr)
              λ found. then_ok (map_ok (result_tx prove) found) λ txs. ok (txs, length results)
