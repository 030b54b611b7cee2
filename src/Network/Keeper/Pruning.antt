-- ===== src/Network/Keeper/Pruning.antt =====
-- PruneOldBitmaps forgets exactly the epochs before its bound.
use native.Mathlib.Nat.{div-lt_iff_lt-mul}
use native.Mathlib.Decide.{dec_lt}
use go_execution_abci.Prelude.{
  Eq, ◌∙◌, ℕ, ◌-◌, ◌*◌, ◌/◌, ◌%◌, ◌<◌, ◌≤◌, ◌≡◌, refl, Bool, true, false, not, none, arith, ltb,
  nat_eq, if◌then◌else◌,
}
use go_execution_abci.Prelude.Int.{ℤ, pos, negsuc, ℤ_eq, to_i64, i64_bound, u64_mod}
use go_execution_abci.Prelude.Map
use go_execution_abci.Network.Types.{State}
use go_execution_abci.Network.Keeper.{
  get_params, get_attestation_bitmap, get_epoch_bitmap, in_range_ℤ, prune_old_bitmaps,
}

below_epoch : (n l k : ℕ) → 0 < l → ltb n (k * l) ≡ ltb (n / l) k
below_epoch n l k h = ground (
  arith,
  (div-lt_iff_lt-mul {k = l} {x = n} {y = k} h).0,
  (div-lt_iff_lt-mul {k = l} {x = n} {y = k} h).1,
)

-- The tests of the two ranges.
module _ (n l k : ℕ) where
  range_test :
      0 < l
      → k * l < i64_bound
      → not (in_range_ℤ (to_i64 (k * l % u64_mod)) (pos n)) ≡ not (ltb (n / l) k)
  unfolding to_i64
  range_test h fits = ground (arith, below_epoch n l k h)

below_zero : (bound : ℤ) (n : ℕ) → not (in_range_ℤ bound (negsuc n)) ≡ true
below_zero bound n = ground arith

forget :
    {K V : Type 0} ⦃e : Eq K⦄ (p : K → Bool) (m : Map.Map K V) (k : K) (b : Bool)
    → p k ≡ not b
    → Map.get (Map.restrict p m) k ≡ (if b then none else Map.get m k)
forget p m k true h = Map.get-restrict p m k ∙ ground arith
forget p m k false h = Map.get-restrict p m k ∙ ground arith

module _ (s : State) (c : ℕ) where
  abbrev epoch_length : ℕ
  epoch_length = (get_params s).epoch_length

  -- The first epoch that is kept.
  abbrev kept_from : ℕ
  kept_from = c - (get_params s).prune_after

  pruned :
      (get_params s).prune_after < c
      → 0 < (get_params s).prune_after
      → prune_old_bitmaps c s ≡ record s {
        attestation_bitmap =
            Map.restrict
              (λ k. not (in_range_ℤ (to_i64 (kept_from * epoch_length % u64_mod)) k))
              s.attestation_bitmap;
        stored_attestation_info =
            Map.restrict
              (λ k. not (in_range_ℤ (to_i64 (kept_from * epoch_length % u64_mod)) k))
              s.stored_attestation_info;
        epoch_bitmap = Map.restrict (λ e. not (ltb e kept_from)) s.epoch_bitmap;
      }
  unfolding prune_old_bitmaps
  pruned past r_pos = ground arith

  early : c ≤ (get_params s).prune_after → prune_old_bitmaps c s ≡ s
  unfolding prune_old_bitmaps
  early h = ground arith

  -- With a positive retention and epoch length, PruneOldBitmaps at epoch c drops the bitmaps and results
  -- of exactly the heights from 0 on whose epoch lies before c less the retention, those of negative
  -- heights stay, and it drops the bitmaps of exactly those epochs, so none while c is at most the retention. This holds while the first height
  -- that is kept fits an int64.
  pub prune_old_bitmaps_lem :
      0 < (get_params s).epoch_length
      → 0 < (get_params s).prune_after
      → (c - (get_params s).prune_after) * (get_params s).epoch_length < i64_bound
      → ((n : ℕ)
          → get_attestation_bitmap (prune_old_bitmaps c s) (pos n) ≡ (
              if ltb (n / (get_params s).epoch_length) (c - (get_params s).prune_after)
              then none
              else get_attestation_bitmap s (pos n)))
        × ((n : ℕ)
            → Map.get (prune_old_bitmaps c s).stored_attestation_info (pos n) ≡ (
                if ltb (n / (get_params s).epoch_length) (c - (get_params s).prune_after)
                then none
                else Map.get s.stored_attestation_info (pos n)))
        × ((n : ℕ)
            → get_attestation_bitmap (prune_old_bitmaps c s) (negsuc n)
              ≡ get_attestation_bitmap s (negsuc n))
        × ((n : ℕ)
            → Map.get (prune_old_bitmaps c s).stored_attestation_info (negsuc n)
              ≡ Map.get s.stored_attestation_info (negsuc n))
        × ((e : ℕ)
            → get_epoch_bitmap (prune_old_bitmaps c s) e
              ≡ (if ltb e (c - (get_params s).prune_after) then none else get_epoch_bitmap s e))
  unfolding get_attestation_bitmap get_epoch_bitmap
  prune_old_bitmaps_lem l_pos r_pos fits = elim (dec_lt (get_params s).prune_after c) [
    | yes past ↦ rw (pruned past r_pos) (
      λ n. forget _ s.attestation_bitmap (pos n) _ (range_test n epoch_length kept_from l_pos fits),
      λ n.
          forget _ s.stored_attestation_info (pos n) _
            (range_test n epoch_length kept_from l_pos fits),
      λ n. forget _ s.attestation_bitmap (negsuc n) false (below_zero _ n),
      λ n. forget _ s.stored_attestation_info (negsuc n) false (below_zero _ n),
      λ e. forget _ s.epoch_bitmap e _ refl,
    )
    | no h ↦
        rw (early (omega arith))
          (λ n. ground arith, λ n. ground arith, λ n. refl, λ n. refl, λ e. ground arith)
  ]
