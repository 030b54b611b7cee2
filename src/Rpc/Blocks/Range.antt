-- ===== src/Rpc/Blocks/Range.antt =====
-- pkg/rpc/core/blocks.go: which blocks BlockchainInfo answers with.
use go_execution_abci.Prelude.{
  ℕ, zero, suc, ◌+◌, ◌-◌, ◌≤◌, ◌<◌, ◌≡◌, ◌↔◌, refl, sym, ap, subst, ◌∙◌, if◌then◌else◌, ◌==◌,
  nat_eq, min, max, arith, length, Option, List, [], ◌∷◌,
}
use go_execution_abci.Prelude.Int.{ℤ, pos, ◌-ℤ◌, ◌+ℤ◌, to_u64, to_u64_pos, to_i64, i64_bound, max_ℤ}
use go_execution_abci.Prelude.Exec.{ok, then_ok-eq-ok, map_err, ok_inj, map_err-eq-ok}
use go_execution_abci.Compat.Types.{Block, BlockMeta}
use go_execution_abci.Rpc.Types.{height, RpcEnv}
use go_execution_abci.Rpc.Heights.{filter_min_max, bounded_range, filter_lem, filter_min_max_lem}
use go_execution_abci.Rpc.Blocks.{
  get_block_meta, meta_of, block_metas, rounds_between, info_limit, blockchain_info,
}

pred_pos : (n : ℕ) → 0 < n → pos n -ℤ pos 1 ≡ pos (n - 1)
unfolding ◌-ℤ◌
pred_pos n h = ground arith

rounds_lem : (a b : ℕ) → a ≤ b → rounds_between (pos a) (pos b) ≡ b + 1 - a
unfolding rounds_between ◌-ℤ◌ ◌+ℤ◌
rounds_lem a b h = ground arith

max_zero : (m : ℕ) → max_ℤ (pos 0) (pos (max 1 m)) ≡ max_ℤ (pos 1) (pos (max 1 m))
max_zero m = ground arith

-- A base of 0 is as good as one of 1.
base_zero :
    (h mini maxi : ℕ)
    → filter_min_max (pos 0) (pos h) (pos mini) (pos maxi) (pos info_limit)
      ≡ filter_min_max (pos 1) (pos h) (pos mini) (pos maxi) (pos info_limit)
base_zero h mini maxi =
    filter_lem 0 h mini maxi info_limit
    ∙ bounded (pos h) (pos (if maxi == 0 then h else maxi)) (pos info_limit) mini
    ∙ sym (filter_lem 1 h mini maxi info_limit)
  where
    bounded :
        (h maxi limit : ℤ) (m : ℕ)
        → bounded_range (pos 0) h (pos (max 1 m)) maxi limit
          ≡ bounded_range (pos 1) h (pos (max 1 m)) maxi limit
    bounded h maxi limit m = unfold bounded_range in rw (max_zero m) refl

module _ (env : RpcEnv) where
  -- The answers of getBlockMeta for the heights from the first one downwards.
  abbrev pub Metas : ℕ → List (Option BlockMeta) → Type 0
  Metas n [] = Unit {0}
  Metas n (m ∷ ms) =
      ((found : Option (BlockMeta × Block)) × (get_block_meta env n ≡ ok found)
        × (m ≡ meta_of env found))
      × Metas (n - 1) ms

  block_metas_lem :
      (n rounds : ℕ) (metas : List (Option BlockMeta))
      → rounds ≤ n
      → n < i64_bound
      → block_metas env (pos n) rounds ≡ ok metas
      → (length metas ≡ rounds) × Metas n metas
  unfolding block_metas
  block_metas_lem n zero metas few fits h =
      subst (λ ms. (length ms ≡ 0) × Metas n ms) (ok_inj h) (refl, tt)
  block_metas_lem n (suc rounds) metas few fits h =
      let (found, is_found, h1) = then_ok-eq-ok (get_block_meta env (to_u64 (pos n))) _ h in
      let (rest, is_rest, h2) = then_ok-eq-ok (block_metas env (pos n -ℤ pos 1) rounds) _ h1 in
      let (count, tail) =
        block_metas_lem (n - 1) rounds rest (omega arith) (omega arith)
          (ap (λ z. block_metas env z rounds) (sym (pred_pos n (omega arith))) ∙ is_rest) in
      subst (λ ms. (length ms ≡ suc rounds) × Metas n ms) (ok_inj h2)
        (
          ap suc count,
          (
            (found, ap (get_block_meta env) (sym (to_u64_pos n (omega arith))) ∙ is_found, refl),
            tail,
          ),
        )

  -- Where BlockchainInfo answers for a request of heights that fit an int64, on a chain whose height
  -- does: the answer has the chain's height, and one entry for each height of a range [a, b], b first,
  -- that is what getBlockMeta gives for it. A height is in the range exactly if it is at least 1, at
  -- least the requested minimum, at most b, which is the smaller of the chain's height and the requested
  -- maximum, if one is given, and among the 20 heights up to b.
  pub blockchain_info_lem :
      (h mini maxi : ℕ) (answered : ℤ) (metas : List (Option BlockMeta))
      → env.height ≡ ok h
      → h < i64_bound
      → maxi < i64_bound
      → blockchain_info env (pos mini) (pos maxi) ≡ ok (answered, metas)
      → (answered ≡ pos h)
        × (a : ℕ) × (b : ℕ) × (b ≡ (if maxi == 0 then h else min h maxi))
        × (length metas ≡ b + 1 - a)
        × Metas b metas
        × ((n : ℕ) → ((a ≤ n) × (n ≤ b)) ↔ ((1 ≤ n) × (mini ≤ n) × (n ≤ b) × (b < n + info_limit)))
  unfolding blockchain_info
  blockchain_info_lem h mini maxi answered metas at_height fits small e =
      let (h', is_height, e1) = then_ok-eq-ok (map_err height env.height) _ e in
      let same : h ≡ h' = ok_inj (sym (ap (map_err height) at_height) ∙ is_height) in
      let within : h' < i64_bound = subst (λ n. n < i64_bound) same fits in
      let (range, in_range, e2) =
        then_ok-eq-ok
          (map_err height
            (filter_min_max (pos 0) (to_i64 h') (pos mini) (pos maxi) (pos info_limit)))
          _ e1 in
      let (ms, are_metas, e3) =
        then_ok-eq-ok (block_metas env (range.1) (rounds_between (range.0) (range.1))) _ e2 in
      let result = ok_inj e3 in
      let filtered : filter_min_max (pos 1) (pos h') (pos mini) (pos maxi) (pos info_limit)
          ≡ ok range =
        sym (base_zero h' mini maxi)
        ∙ ap (λ z. filter_min_max (pos 0) z (pos mini) (pos maxi) (pos info_limit))
            (sym (to_i64_small h' within))
        ∙ map_err-eq-ok height _ in_range in
      let (a, b, first, last, ordered, top, members) =
        filter_min_max_lem 1 h' mini maxi info_limit (range.0) (range.1) (omega arith) within small
          (omega arith) (omega arith) filtered in
      let (positive, above_mini, at_most, near) = (members a).0 (omega arith, ordered) in
      let bounded : b < i64_bound = ground (arith, top) in
      let (count, found) = block_metas_lem b (b + 1 - a) ms (omega arith) bounded (
        sym (ap (λ z. block_metas env z (b + 1 - a)) last)
        ∙ sym
            (ap (block_metas env (range.1)) (rounds_of (range.0) (range.1) a b first last ordered))
        ∙ are_metas) in
      (
        sym (ap (λ r. r.0) result) ∙ to_i64_small h' within ∙ ap pos (sym same),
        a,
        b,
        top ∙ ap (λ n. if maxi == 0 then n else min n maxi) (sym same),
        ap length (sym (ap (λ r. r.1) result)) ∙ count,
        subst (Metas b) (ap (λ r. r.1) result) found,
        members,
      )
    where
      to_i64_small : (n : ℕ) → n < i64_bound → to_i64 n ≡ pos n
      to_i64_small n k = unfold to_i64 in ground arith

      rounds_of :
          (x y : ℤ) (a b : ℕ) → x ≡ pos a → y ≡ pos b → a ≤ b → rounds_between x y ≡ b + 1 - a
      rounds_of x y a b hx hy k =
          ap (λ z. rounds_between z y) hx ∙ ap (rounds_between (pos a)) hy ∙ rounds_lem a b k
