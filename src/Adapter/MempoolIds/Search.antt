-- ===== src/Adapter/MempoolIds/Search.antt =====
-- The search for a free id ends.
use native.Mathlib.Nat.{mod-lt}
use go_execution_abci.Prelude.{
  ℕ, zero, suc, ◌+◌, ◌%◌, ◌≤◌, ◌<◌, ◌≡◌, ◌≢◌, ap, ◌∙◌, Bool, true, false, none, some, [], ◌∷◌,
  arith, ◌==◌, nat_eq, if◌then◌else◌, length, Option-cases, inl, inr,
}
use go_execution_abci.Prelude.Int.{u16_mod}
use go_execution_abci.Prelude.Map
use go_execution_abci.Adapter.MempoolIds.{search}

abbrev Used : Type 0
Used = Map.Map ℕ (Unit {0})

pub restrict-le : (p : ℕ → Bool) (m : Used) → length (Map.restrict p m) ≤ length m
unfolding Map.restrict
restrict-le p [] = ground arith
restrict-le p ((j, v) ∷ m) = ground (arith, restrict-le p m)

-- Removing a used id makes the map shorter.
remove_shorter : (m : Used) (k : ℕ) → Map.has m k ≡ true → length (Map.remove m k) < length m
unfolding Map.has Map.get Map.remove Map.restrict
remove_shorter [] k h = cc
remove_shorter ((j, v) ∷ m) k h =
    ground (arith, remove_shorter m k, restrict-le (λ i. if i == k then false else true) m)

has-remove_ne : (m : Used) (k j : ℕ) → k ≢ j → Map.has (Map.remove m k) j ≡ Map.has m j
unfolding Map.has
has-remove_ne m k j h = ground (arith, Map.get-remove m k j)

-- k consecutive ids that are all used are as many entries.
pigeonhole :
    (k n : ℕ) (m : Used)
    → k ≤ u16_mod
    → ((i : ℕ) → i < k → Map.has m ((n + i) % u16_mod) ≡ true)
    → k ≤ length m
pigeonhole zero n m small used = omega arith
pigeonhole (suc k) n m small used =
    let shorter = remove_shorter m ((n + k) % u16_mod) (used k (omega arith)) in
    let rest = pigeonhole k n (Map.remove m ((n + k) % u16_mod)) (omega arith) (λ i h.
      has-remove_ne m ((n + k) % u16_mod) ((n + i) % u16_mod) (λ e. omega arith)
      ∙ used i (omega arith)) in
    omega arith

-- A search that spends its fuel has met used ids only.
search_spent :
    (fuel n : ℕ) (m : Used)
    → n < u16_mod
    → search fuel m n ≡ none
    → (i : ℕ) → i < fuel
    → Map.has m ((n + i) % u16_mod) ≡ true
unfolding search
search_spent zero n m small h i within = ground (arith, within)
search_spent (suc fuel) n m small h zero within =
    ap (λ k. Map.has m k) {x = (n + 0) % u16_mod} {y = n} (omega arith) ∙ ground arith
search_spent (suc fuel) n m small h (suc i) within =
    ap (λ k. Map.has m k) {x = (n + suc i) % u16_mod} {y = ((n + 1) % u16_mod + i) % u16_mod}
      (omega arith)
    ∙ search_spent fuel ((n + 1) % u16_mod) m (omega (arith, mod-lt)) (ground arith) i (omega arith)

search_free :
    (fuel n j : ℕ) (m : Used)
    → n < u16_mod
    → search fuel m n ≡ some j
    → (Map.has m j ≡ false) × (j < u16_mod)
unfolding search
search_free zero n j m small h = cc
search_free (suc fuel) n j m small h =
    ground (arith, search_free fuel ((n + 1) % u16_mod) j m (omega (arith, mod-lt)))

-- If fewer than 65536 ids are used, the search from an id below 65536 on finds one that is not used, with
-- one round for each used id and one more.
pub search_lem :
    (n : ℕ) (m : Map.Map ℕ (Unit {0}))
    → n < u16_mod
    → length m < u16_mod
    → (j : ℕ) × (search (suc (length m)) m n ≡ some j) × (Map.has m j ≡ false) × (j < u16_mod)
search_lem n m small few = elim (Option-cases (search (suc (length m)) m n)) [
  | inr (j, found) ↦ (
    j,
    found,
    (search_free (suc (length m)) n j m small found).0,
    (search_free (suc (length m)) n j m small found).1,
  )
  | inl spent ↦
      let many =
        pigeonhole (suc (length m)) n m (omega arith)
          (search_spent (suc (length m)) n m small spent) in
      absurd (omega (arith, many))
]
