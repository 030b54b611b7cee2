-- ===== src/Rpc/Paging.antt =====
-- pkg/rpc/core/env.go: the pages of a list of results. An int has 64 bits.
use native.Mathlib.Nat.{le-div_iff_mul-le, div-lt_iff_lt-mul, div-le_self}
use go_execution_abci.Prelude.{
  ℕ, zero, suc, ◌+◌, ◌-◌, ◌*◌, ◌/◌, ◌≤◌, ◌<◌, ◌≡◌, ◌↔◌, refl, ap, ◌∙◌, ◌||◌, Option, none, some,
  arith, ◌==◌, nat_eq, if◌then◌else◌,
}
use go_execution_abci.Prelude.Int.{
  ℤ, pos, negsuc, ◌+ℤ◌, ◌-ℤ◌, ◌*ℤ◌, ltb_ℤ, leb_ℤ, ℤ_eq, to_u64, to_i64, i64_bound,
}
use go_execution_abci.Prelude.Exec.{Outcome, ok, err, panic}

abbrev default_per_page : ℤ
default_per_page = pos 30

abbrev max_per_page : ℤ
max_per_page = pos 100

-- The result of an operation on int64, wrapped around.
unfoldable pub int64 : ℤ → ℤ
unfolding to_u64 to_i64
int64 z = to_i64 (to_u64 z)

-- Division that truncates towards zero, by a positive number.
unfoldable pub quotient : ℤ → ℕ → ℤ
quotient (pos a) n = pos (a / n)
quotient (negsuc a) n = pos 0 -ℤ pos (suc a / n)

unfoldable pub validate_skip_count : ℤ → ℤ → ℤ
unfolding int64 ◌-ℤ◌ ◌*ℤ◌
validate_skip_count page per_page =
    let skip_count = int64 (int64 (page -ℤ pos 1) *ℤ per_page) in
    if ltb_ℤ skip_count (pos 0) then pos 0 else skip_count

pub data PageError : Type 0 where
  out_of_range : PageError

abbrev page_of : ℤ → ℤ → Outcome PageError ℤ
page_of pages page = if leb_ℤ page (pos 0) || ltb_ℤ pages page then err out_of_range else ok page

abbrev pages_of : ℤ → ℤ
pages_of pages = if pages == pos 0 then pos 1 else pages

-- A per_page below 1 panics.
unfoldable pub validate_page : Option ℤ → ℤ → ℤ → Outcome PageError ℤ
unfolding int64 quotient ◌-ℤ◌ ◌+ℤ◌
validate_page page (negsuc n) total_count = panic
validate_page page (pos zero) total_count = panic
validate_page none (pos (suc n)) total_count = ok (pos 1)
validate_page (some page) (pos (suc n)) total_count =
    page_of (pages_of (int64 (quotient (int64 (total_count -ℤ pos 1)) (suc n) +ℤ pos 1))) page

unfoldable pub validate_per_page : Option ℤ → ℤ
validate_per_page none = default_per_page
validate_per_page (some per_page) =
    if ltb_ℤ per_page (pos 1)
    then default_per_page
    else if ltb_ℤ max_per_page per_page
    then max_per_page
    else per_page

-- The number of pages, of which an empty list has one.
abbrev pub page_count : ℕ → ℕ → ℕ
page_count total per = if total == 0 then 1 else (total - 1) / per + 1

int64_pos : (n : ℕ) → n < i64_bound → int64 (pos n) ≡ pos n
unfolding int64
int64_pos n h = ground arith

predecessor : (n : ℕ) → pos (suc n) -ℤ pos 1 ≡ pos n
unfolding ◌-ℤ◌
predecessor n = ground arith

successor : (n : ℕ) → pos n +ℤ pos 1 ≡ pos (n + 1)
unfolding ◌+ℤ◌
successor n = ground arith

quotient_pos : (t n : ℕ) → quotient (pos t) n ≡ pos (t / n)
unfolding quotient
quotient_pos t n = refl

product_pos : (a b : ℕ) → pos a *ℤ pos b ≡ pos (a * b)
unfolding ◌*ℤ◌
product_pos a b = ground arith

-- The number of pages, as validatePage computes it.
pages_lem :
    (total n : ℕ)
    → total < i64_bound
    → pages_of (int64 (quotient (int64 (pos total -ℤ pos 1)) (suc n) +ℤ pos 1))
      ≡ pos (page_count total (suc n))
pages_lem zero zero fits = unfold int64 quotient ◌-ℤ◌ ◌+ℤ◌ in refl
pages_lem zero (suc n) fits =
    unfold int64 quotient ◌-ℤ◌ ◌+ℤ◌ in
    ap (λ k. pages_of (int64 (pos 0 -ℤ pos k +ℤ pos 1))) {x = 1 / suc (suc n)} {y = 0}
      (omega (arith, (div-lt_iff_lt-mul {k = suc (suc n)} {x = 1} {y = 1} (omega arith)).1))
pages_lem (suc t) n fits =
    rw (predecessor t, int64_pos t (omega arith), quotient_pos t (suc n), successor (t / suc n))
      (rw (int64_pos (t / suc n + 1) (omega (arith, div-le_self t (suc n)))) (ground arith))

-- For results that fit an int, and pages of one result or more, a page is accepted exactly if its
-- number is between 1 and the number of pages.
pub validate_page_iff :
    (page total per : ℕ)
    → 0 < per
    → total < i64_bound
    → page < i64_bound
    → (validate_page (some (pos page)) (pos per) (pos total) ≡ ok (pos page))
      ↔ ((0 < page) × (page ≤ page_count total per))
unfolding validate_page
validate_page_iff page total zero positive fits small = absurd (omega (arith, positive))
validate_page_iff page total (suc n) positive fits small =
    rw (pages_lem total n fits) (λ h. ground arith, λ h. ground arith)

pub skip_bound :
    (page total per : ℕ)
    → 0 < per
    → 0 < total
    → 0 < page
    → page ≤ page_count total per
    → (page - 1) * per < total
skip_bound page total per positive some_results first last =
    ground (arith, (le-div_iff_mul-le {k = per} {x = page - 1} {y = total - 1} positive).0)

skip_suc :
    (p per : ℕ)
    → p < i64_bound
    → p * per < i64_bound
    → validate_skip_count (pos (suc p)) (pos per) ≡ pos (p * per)
unfolding validate_skip_count
skip_suc p per small fits =
    rw (predecessor p, int64_pos p small, product_pos p per)
      (rw (int64_pos (p * per) fits) (ground arith))

pub skip_lem :
    (page per : ℕ)
    → 0 < page
    → page < i64_bound
    → (page - 1) * per < i64_bound
    → validate_skip_count (pos page) (pos per) ≡ pos ((page - 1) * per)
skip_lem page per first small fits =
    ap (λ k. validate_skip_count (pos k) (pos per)) {x = page} {y = suc (page - 1)}
      (omega (arith, first))
    ∙ skip_suc (page - 1) per (omega arith) fits

-- The result at an index is on exactly one page: the page that accepts it and skips at most the index,
-- with less than a page between.
validate_skip_count_lem :
    (page total per i : ℕ)
    → 0 < per
    → per ≤ 100
    → total < i64_bound
    → i < total
    → validate_page (some (pos page)) (pos per) (pos total) ≡ ok (pos page)
    → page < i64_bound
    → (skip : ℕ) × (validate_skip_count (pos page) (pos per) ≡ pos skip)
      × (skip < total)
      × (((skip ≤ i) × (i < skip + per)) ↔ (page ≡ i / per + 1))
validate_skip_count_lem page total per i positive few fits within accepted small =
    let (first, last) = (validate_page_iff page total per positive fits small).0 accepted in
    let skipped = skip_bound page total per positive (omega arith) first last in
    (
      (page - 1) * per,
      skip_lem page per first small (omega arith),
      skipped,
      (
        λ h. ground (arith, below.0, below.1, above.0, above.1),
        λ e. ground (arith, below.0, below.1, above.0, above.1),
      ),
    )
  where
    below : (page - 1 ≤ i / per) ↔ ((page - 1) * per ≤ i)
    below = le-div_iff_mul-le {k = per} {x = page - 1} {y = i} positive

    above : (i / per < page - 1 + 1) ↔ (i < (page - 1 + 1) * per)
    above = div-lt_iff_lt-mul {k = per} {x = i} {y = page - 1 + 1} positive
