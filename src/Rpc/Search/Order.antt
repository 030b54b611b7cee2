-- ===== src/Rpc/Search/Order.antt =====
-- pkg/rpc/core: the order of the results over all pages of a search.
use mathlib.Core.List.{Perm}
use go_execution_abci.Prelude.{
  ℕ, ◌≤◌, ◌<◌, ◌≡◌, sym, ap, ◌∙◌, Bool, true, false, length, List, [], ◌∷◌, arith,
}
use go_execution_abci.Prelude.Int.{i64_bound}
use go_execution_abci.Prelude.Exec.{ok}
use go_execution_abci.Rpc.Paging.{page_count}
use go_execution_abci.Rpc.Search.{Sorter}
use go_execution_abci.Rpc.Search.Pages.{joined_pages, joined_pages_lem}

module _ {A : Type 0} (before : A → A → Bool) where
  -- No item comes before the one that it follows.
  abbrev pub InOrder : List A → Type 0
  InOrder [] = Unit {0}
  InOrder (x ∷ []) = Unit {0}
  InOrder (x ∷ y ∷ rest) = (before y x ≡ false) × InOrder (y ∷ rest)

-- A strict weak order.
pub record IsOrder {A : Type 0} (before : A → A → Bool) : Type 0 where
  pub asymmetric : (a b : A) → before a b ≡ true → before b a ≡ false
  pub negatively_transitive :
      (a b c : A) → before a b ≡ false → before b c ≡ false → before a c ≡ false

-- What sort.Slice promises for such an order; equal items come in any order.
pub record IsSorter (sorter : Sorter) : Type 1 where
  pub slice-InOrder :
      {A : Type 0} (before : A → A → Bool) (xs : List A)
      → IsOrder before
      → InOrder before (sorter.slice before xs)
  pub slice-perm :
      {A : Type 0} (before : A → A → Bool) (xs : List A) → Perm (sorter.slice before xs) xs
  pub length-slice :
      {A : Type 0} (before : A → A → Bool) (xs : List A)
      → length (sorter.slice before xs) ≡ length xs

-- For results whose number fits an int64, in a strict weak order, and pages of 1 to 100 of them: each
-- page of the sorted results is answered, and the answers for all pages, one after the other, are the
-- results, each as often as the index gave it, and none comes before one that it follows.
pub joined_pages-slice :
    {A : Type 0} (sorter : Sorter) (before : A → A → Bool) (xs : List A) (per : ℕ)
    → IsSorter sorter
    → IsOrder before
    → 0 < per
    → per ≤ 100
    → length xs < i64_bound
    → (ys : List A) × (joined_pages (sorter.slice before xs) per (page_count (length xs) per)
        ≡ ok ys)
      × InOrder before ys
      × Perm ys xs
joined_pages-slice sorter before xs per law order positive few fits = (
  sorter.slice before xs,
  ap (λ n. joined_pages (sorter.slice before xs) per (page_count n per))
        (sym (law.length-slice before xs))
      ∙ joined_pages_lem (sorter.slice before xs) per positive few
          (omega (arith, law.length-slice before xs)),
  law.slice-InOrder before xs order,
  law.slice-perm before xs,
)
