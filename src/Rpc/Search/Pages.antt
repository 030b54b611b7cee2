-- ===== src/Rpc/Search/Pages.antt =====
-- pkg/rpc/core: the pages of a list of results, put together again.
use native.Mathlib.Nat.{div-lt_iff_lt-mul, div-le_self}
use go_execution_abci.Prelude.{
  ℕ, zero, suc, ◌+◌, ◌-◌, ◌*◌, ◌/◌, ◌≤◌, ◌<◌, ◌≡◌, sym, ap, ◌∙◌, min, arith, length, take, drop,
  length-drop, take-min, take-add, take-length, nat_eq, some, List, [], ◌++◌,
}
use go_execution_abci.Prelude.Int.{pos, ◌-ℤ◌, min_ℤ, i64_bound}
use go_execution_abci.Prelude.Exec.{Outcome, ok, then_ok}
use go_execution_abci.Rpc.Paging.{
  validate_per_page, validate_page_iff, skip_lem, skip_bound, page_count,
}
use go_execution_abci.Rpc.Types.{RpcError}
use go_execution_abci.Rpc.Search.{items, page_items}

per_page_lem : (per : ℕ) → 0 < per → per ≤ 100 → validate_per_page (some (pos per)) ≡ pos per
unfolding validate_per_page
per_page_lem per positive few = ground arith

difference : (a b : ℕ) → b ≤ a → pos a -ℤ pos b ≡ pos (a - b)
unfolding ◌-ℤ◌
difference a b h = ground arith

min_pos : (a b : ℕ) → min_ℤ (pos a) (pos b) ≡ pos (min a b)
min_pos a b = ground arith

skip_total : (n total per : ℕ) → 0 < per → 0 < n → n ≤ page_count total per → (n - 1) * per ≤ total
skip_total n zero per positive first last =
    ap_le (n - 1) per (omega (arith, first, one_page per last))
  where
    one_page : (p : ℕ) → n ≤ page_count 0 p → n ≤ 1
    one_page p h = h

    ap_le : (k p : ℕ) → k ≡ 0 → k * p ≤ 0
    ap_le k p h = rw h (omega arith)
skip_total n (suc t) per positive first last =
    omega (arith, skip_bound n (suc t) per positive (omega arith) first last)

total_within : (total per : ℕ) → 0 < per → total ≤ page_count total per * per
total_within zero per positive = omega arith
total_within (suc t) per positive =
    ground (arith, (div-lt_iff_lt-mul {k = per} {x = t} {y = t / per + 1} positive).0)

count_within : (total per : ℕ) → total < i64_bound → page_count total per < i64_bound
count_within zero per fits = ground arith
count_within (suc t) per fits = ground (arith, div-le_self t per)

module _ {A : Type 0} (xs : List A) (per : ℕ) where
  -- The answers for the pages from 1 to n, one after the other.
  abbrev pub joined_pages : ℕ → Outcome RpcError (List A)
  joined_pages zero = ok []
  joined_pages (suc n) = then_ok (joined_pages n) λ front.
      then_ok (page_items xs (some (pos (suc n))) (some (pos per))) λ last. ok (front ++ last)

module _ {A : Type 0} (xs : List A) (per : ℕ) (positive : 0 < per) (few : per ≤ 100) where
  items_lem :
      (skip : ℕ)
      → skip ≤ length xs
      → items xs (pos skip) (min_ℤ (pos per) (pos (length xs) -ℤ pos skip))
        ≡ ok (take per (drop skip xs))
  unfolding items
  items_lem skip within =
      rw (difference (length xs) skip within, min_pos per (length xs - skip))
        (ap ok (
          ap (λ n. take (min per n) (drop skip xs)) (sym (length-drop skip xs))
          ∙ take-min per (drop skip xs)))

  skip_within : (n : ℕ) → 0 < n → n ≤ page_count (length xs) per → (n - 1) * per ≤ length xs
  skip_within n first last = skip_total n (length xs) per positive first last

  page_items_lem :
      (n : ℕ)
      → length xs < i64_bound
      → 0 < n
      → n < i64_bound
      → n ≤ page_count (length xs) per
      → page_items xs (some (pos n)) (some (pos per)) ≡ ok (take per (drop ((n - 1) * per) xs))
  unfolding page_items
  page_items_lem n fits first small last =
      rw
        (
          per_page_lem per positive few,
          (validate_page_iff n (length xs) per positive fits small).1 (first, last),
          skip_lem n per first small (omega (arith, skip_within n first last)),
        )
        (items_lem ((n - 1) * per) (skip_within n first last))

  joined_pages-take :
      (n : ℕ)
      → length xs < i64_bound
      → n < i64_bound
      → n ≤ page_count (length xs) per
      → joined_pages xs per n ≡ ok (take (n * per) xs)
  joined_pages-take zero fits small last =
      ap (λ k. ok (take k xs)) {x = 0} {y = 0 * per} (omega arith)
  joined_pages-take (suc n) fits small last =
      rw
        (
          joined_pages-take n fits (omega arith) (omega arith),
          page_items_lem (suc n) fits (omega arith) small last,
        )
        (ap ok (
          ap (λ k. take (n * per) xs ++ take per (drop k xs)) {x = (suc n - 1) * per} {y = n * per}
            (ap (λ k. k * per) {x = suc n - 1} {y = n} (omega arith))
          ∙ take-add (n * per) per xs
          ∙ ap (λ k. take k xs) {x = n * per + per} {y = suc n * per} (omega arith)))

  -- For pages of 1 to 100 results, and results whose number fits an int64: each page from
  -- the first to the last is answered, and the answers, one after the other, are the results, in their
  -- order, each once.
  pub joined_pages_lem :
      length xs < i64_bound → joined_pages xs per (page_count (length xs) per) ≡ ok xs
  joined_pages_lem fits =
      joined_pages-take (page_count (length xs) per) fits (count_within (length xs) per fits)
        (omega arith)
      ∙ ap ok (
          take-length (page_count (length xs) per * per) xs (total_within (length xs) per positive))
