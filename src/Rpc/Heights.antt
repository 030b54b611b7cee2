-- ===== src/Rpc/Heights.antt =====
-- pkg/rpc/core/utils.go: heights of requests, ranges of heights, and node ids.
use go_execution_abci.Prelude.{
  ℕ, ◌+◌, ◌-◌, ◌≤◌, ◌<◌, ◌≡◌, ◌↔◌, inl, inr, sym, ◌∙◌, String, true, ◌||◌, Option, none, some, List,
  arith, ltb, ◌==◌, nat_eq, if◌then◌else◌, Bool-cases, leb, length, take, min, max,
}
use go_execution_abci.Prelude.Int.{
  ℤ, pos, negsuc, ◌+ℤ◌, ◌-ℤ◌, ltb_ℤ, leb_ℤ, min_ℤ, max_ℤ, ℤ_eq, to_u64, to_i64, to_i64-to_u64,
  pos_part, neg_part, i64_bound,
}
use go_execution_abci.Prelude.Exec.{Outcome, ok, err, then_ok, or_err}
use go_execution_abci.Rpc.Paging.{int64}

pub data HeightError : Type 0 where
  must_be_positive invalid_request bad_hex too_short store : HeightError

-- The height of the store is asked for if none is given, or a negative one.
unfoldable pub normalize_height : Option ℤ → Outcome HeightError ℕ → Outcome HeightError ℕ
unfolding to_u64
normalize_height none store_height = store_height
normalize_height (some (negsuc n)) store_height = store_height
normalize_height (some (pos n)) store_height = ok (to_u64 (pos n))

-- The range after the adjustments for default values.
unfoldable pub bounded_range : ℤ → ℤ → ℤ → ℤ → ℤ → Outcome HeightError (ℤ × ℤ)
unfolding int64 ◌-ℤ◌ ◌+ℤ◌
bounded_range base height mini maxi limit =
    let last = min_ℤ height maxi in
    let first = max_ℤ (max_ℤ base mini) (int64 (int64 (last -ℤ limit) +ℤ pos 1)) in
    if ltb_ℤ last first then err invalid_request else ok (first, last)

unfoldable pub filter_min_max : ℤ → ℤ → ℤ → ℤ → ℤ → Outcome HeightError (ℤ × ℤ)
filter_min_max base height mini maxi limit =
    if ltb_ℤ mini (pos 0) || ltb_ℤ maxi (pos 0)
    then err must_be_positive
    else bounded_range base height (if mini == pos 0 then pos 1 else mini)
        (if maxi == pos 0 then height else maxi) limit

-- `decode` and `encode` are those of encoding/hex.
unfoldable pub truncate_node_id :
    (String → Option (List ℕ)) → (List ℕ → String) → String → Outcome HeightError String
truncate_node_id decode encode id =
    then_ok (or_err (decode id) bad_hex)
      λ bytes. if ltb (length bytes) 20 then err too_short else ok (encode (take 20 bytes))

difference : (last limit : ℕ) → limit ≤ last → pos last -ℤ pos limit ≡ pos (last - limit)
unfolding ◌-ℤ◌
difference last limit h = ground arith

shortfall : (last limit : ℕ) → last < limit → pos last -ℤ pos limit ≡ negsuc (limit - last - 1)
unfolding ◌-ℤ◌
shortfall last limit h = ground arith

int64_same : (z : ℤ) → pos_part z < i64_bound → neg_part z ≤ i64_bound → int64 z ≡ z
unfolding int64
int64_same z h k = to_i64-to_u64 z h k

next_pos : (n : ℕ) → pos n +ℤ pos 1 ≡ pos (n + 1)
unfolding ◌+ℤ◌
next_pos n = ground arith

next_neg : (n : ℕ) → negsuc n +ℤ pos 1 ≡ pos 0 -ℤ pos n
unfolding ◌+ℤ◌ ◌-ℤ◌
next_neg n = ground arith

not_positive : (n : ℕ) → n < i64_bound → leb_ℤ (int64 (pos 0 -ℤ pos n)) (pos 0) ≡ true
unfolding int64 ◌-ℤ◌ to_i64 to_u64
not_positive n h = ground arith

-- The lower end of the window of `limit` heights up to `last`, against a positive bound.
window :
    (bound last limit : ℕ)
    → 0 < bound
    → 0 < limit
    → last < i64_bound
    → limit < i64_bound
    → max_ℤ (pos bound) (int64 (int64 (pos last -ℤ pos limit) +ℤ pos 1))
      ≡ pos (max bound (last + 1 - limit))
window bound last limit positive some_limit fits small = elim (Bool-cases (leb limit last)) [
  | inl enough ↦
      rw
        (
          difference last limit (ground arith),
          int64_same (pos (last - limit)) (omega arith) (omega arith),
          next_pos (last - limit),
          int64_same (pos (last - limit + 1)) (omega (arith, some_limit, fits)) (omega arith),
        )
        (ground arith)
  | inr short ↦
      let under : last < limit = ground arith in
      rw
        (
          shortfall last limit under,
          int64_same (negsuc (limit - last - 1)) (omega arith) (omega arith),
          next_neg (limit - last - 1),
        )
        (ground (arith, not_positive (limit - last - 1) (omega arith)))
]

min_pos : (a b : ℕ) → min_ℤ (pos a) (pos b) ≡ pos (min a b)
min_pos a b = ground arith

max_pos : (a b : ℕ) → max_ℤ (pos a) (pos b) ≡ pos (max a b)
max_pos a b = ground arith

abbrev range_of : ℕ → ℕ → Outcome HeightError (ℤ × ℤ)
range_of first last = if ltb last first then err invalid_request else ok (pos first, pos last)

range_lem :
    (base height mini maxi limit : ℕ)
    → 0 < base
    → 0 < limit
    → height < i64_bound
    → limit < i64_bound
    → bounded_range (pos base) (pos height) (pos mini) (pos maxi) (pos limit)
      ≡ range_of (max (max base mini) (min height maxi + 1 - limit)) (min height maxi)
unfolding bounded_range
range_lem base height mini maxi limit some_base some_limit fits small =
    rw
      (
        min_pos height maxi,
        max_pos base mini,
        window (max base mini) (min height maxi) limit (omega arith) some_limit (omega arith) small,
      )
      (ground arith)

pub filter_lem :
    (base height mini maxi limit : ℕ)
    → filter_min_max (pos base) (pos height) (pos mini) (pos maxi) (pos limit)
      ≡ bounded_range
          (pos base)
          (pos height)
          (pos (max 1 mini))
          (pos (if maxi == 0 then height else maxi))
          (pos limit)
unfolding filter_min_max
filter_lem base height mini maxi limit =
    rw (default_first mini, default_last maxi height) (ground arith)
  where
    default_first : (m : ℕ) → (if pos m == pos 0 then pos 1 else pos m) ≡ pos (max 1 m)
    default_first m = ground arith

    default_last :
        (m h : ℕ) → (if pos m == pos 0 then pos h else pos m) ≡ pos (if m == 0 then h else m)
    default_last m h = ground arith

range_ok :
    (first last : ℤ) (f l : ℕ)
    → range_of f l ≡ ok (first, last)
    → (first ≡ pos f) × (last ≡ pos l) × (f ≤ l)
range_ok first last f l h = ground arith

-- For a chain with blocks from a base to a height, a request for heights within int64 that succeeds
-- gives the heights between its bounds, 0 standing for none, that the chain has, and of these the
-- last ones, at most as many as the limit; it succeeds only if there is one.
pub filter_min_max_lem :
    (base height mini maxi limit : ℕ) (first last : ℤ)
    → 0 < base
    → height < i64_bound
    → maxi < i64_bound
    → 0 < limit
    → limit < i64_bound
    → filter_min_max (pos base) (pos height) (pos mini) (pos maxi) (pos limit) ≡ ok (first, last)
    → (a : ℕ) × (b : ℕ) × (first ≡ pos a)
      × (last ≡ pos b)
      × (a ≤ b)
      × (b ≡ (if maxi == 0 then height else min height maxi))
      × ((n : ℕ) → ((a ≤ n) × (n ≤ b)) ↔ ((base ≤ n) × (mini ≤ n) × (n ≤ b) × (b < n + limit)))
filter_min_max_lem base height mini maxi limit first last some_base fits small positive bound h =
    let top : ℕ = if maxi == 0 then height else maxi in
    let (starts, ends, ordered) =
      range_ok first last (max (max base (max 1 mini)) (min height top + 1 - limit))
        (min height top)
        (sym (range_lem base height (max 1 mini) top limit some_base positive fits bound)
          ∙ sym (filter_lem base height mini maxi limit)
          ∙ h) in
    (
      max (max base (max 1 mini)) (min height top + 1 - limit),
      min height top,
      starts,
      ends,
      ordered,
      ground arith,
      λ n. (λ k. ground arith, λ k. ground arith),
    )
