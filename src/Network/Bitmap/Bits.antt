-- ===== src/Network/Bitmap/Bits.antt =====
-- What the operations of a bitmap do to each of its bits.
use Prim.Native.Nat.{bit_and, bit_or}
use native.Mathlib.Nat.{one-le-pow}
use native.Mathlib.Decide.{ℕ_discrete, dec_lt}
use go_execution_abci.Prelude.{
  ℕ, zero, suc, ◌+◌, ◌*◌, ◌/◌, ◌%◌, ◌^◌, ◌<◌, ◌≤◌, min, max, ◌≡◌, ◌≢◌, refl, sym, true, false, ◌&&◌,
  ◌||◌, List, [], ◌∷◌, arith, ◌==◌, nat_eq, if◌then◌else◌, length, get_or, set, length-set,
  get_or-set_self, get_or-set_ne, get_or-replicate, length-replicate,
}
use go_execution_abci.Prelude.Int.{ℤ, pos, negsuc}
use go_execution_abci.Prelude.Bits.{
  bit, bit-lt, bit-zero, bit-bit_or, bit-bit_and, bit-two-pow_self, bit-two-pow_ne, bit_and-two-pow,
}
use go_execution_abci.Network.Bitmap.{Bytes, new_bitmap, set_bit, is_set, or_bitmap, and_bitmap}

-- Bit i of a bitmap, 0 past its end.
abbrev pub bit_at : Bytes → ℕ → ℕ
bit_at bitmap i = bit (get_or bitmap (i / 8) 0) (i % 8)

get_or_beyond : (xs : List ℕ) (i : ℕ) → length xs ≤ i → get_or xs i 0 ≡ 0
get_or_beyond [] i h = refl
get_or_beyond (x ∷ xs) zero h = absurd (omega arith)
get_or_beyond (x ∷ xs) (suc i) h = get_or_beyond xs i (omega arith)

pub bit_at_beyond : (bitmap : Bytes) (i : ℕ) → length bitmap * 8 ≤ i → bit_at bitmap i ≡ 0
bit_at_beyond bitmap i h = rw (get_or_beyond bitmap (i / 8) (omega arith)) (bit-zero (i % 8))

two-pow-pos : (k b : ℕ) → b < 2 → (b * 2 ^ k == 0) ≡ (b == 0)
two-pow-pos k zero h = ground arith
two-pow-pos k (suc zero) h = ground (arith, one-le-pow k 2)
two-pow-pos k (suc (suc b)) h = absurd (omega arith)

-- IsSet reads one bit, also past the end.
pub is_set-bit_at : (bitmap : Bytes) (i : ℕ) → is_set bitmap (pos i) ≡ (bit_at bitmap i == 1)
unfolding is_set
is_set-bit_at bitmap i = ground (
  arith,
  bit_at_beyond bitmap i,
  bit_and-two-pow (i % 8) (get_or bitmap (i / 8) 0),
  two-pow-pos (i % 8) (bit_at bitmap i),
  bit-lt (i % 8) (get_or bitmap (i / 8) 0),
)

set_bit_in_range :
    (bitmap : Bytes) (i : ℕ)
    → i < length bitmap * 8
    → set_bit bitmap (pos i) ≡ set bitmap (i / 8) (bit_or (get_or bitmap (i / 8) 0) (2 ^ (i % 8)))
unfolding set_bit
set_bit_in_range bitmap i h = ground arith

pub length-set_bit : (bitmap : Bytes) (i : ℤ) → length (set_bit bitmap i) ≡ length bitmap
unfolding set_bit
length-set_bit bitmap (negsuc i) = refl
length-set_bit bitmap (pos i) =
    ground (arith, length-set bitmap (i / 8) (bit_or (get_or bitmap (i / 8) 0) (2 ^ (i % 8))))

-- SetBit past the end writes nothing.
pub set_bit_beyond :
    (bitmap : Bytes) (i : ℕ) → length bitmap * 8 ≤ i → set_bit bitmap (pos i) ≡ bitmap
unfolding set_bit
set_bit_beyond bitmap i h = ground arith

pub bit_at-set_bit_self :
    (bitmap : Bytes) (i : ℕ) → i < length bitmap * 8 → bit_at (set_bit bitmap (pos i)) i ≡ 1
bit_at-set_bit_self bitmap i h =
    rw
      (
        set_bit_in_range bitmap i h,
        get_or-set_self bitmap (i / 8) (bit_or (get_or bitmap (i / 8) 0) (2 ^ (i % 8))) 0
            (omega arith),
        bit-bit_or (i % 8) (get_or bitmap (i / 8) 0) (2 ^ (i % 8)),
        bit-two-pow_self (i % 8),
      )
      (omega (arith, bit-lt (i % 8) (get_or bitmap (i / 8) 0)))

pub bit_at-set_bit_ne :
    (bitmap : Bytes) (i j : ℕ) → j ≢ i → bit_at (set_bit bitmap (pos i)) j ≡ bit_at bitmap j
bit_at-set_bit_ne bitmap i j ne = elim (dec_lt i (length bitmap * 8)) [
  | no out ↦ rw (set_bit_beyond bitmap i (omega arith))
  | yes h ↦ rw (set_bit_in_range bitmap i h) (elim (ℕ_discrete (i / 8) (j / 8)) [
    | no other ↦ rw (get_or-set_ne bitmap _ 0 other)
    | yes same ↦ rw (← same) (
        rw
          (
            get_or-set_self bitmap (i / 8) (bit_or (get_or bitmap (i / 8) 0) (2 ^ (i % 8))) 0
                (omega arith),
            bit-bit_or (j % 8) (get_or bitmap (i / 8) 0) (2 ^ (i % 8)),
            bit-two-pow_ne (i % 8) (j % 8) (omega arith),
          )
          (omega arith))
  ])
]

-- After SetBit at an index within the bitmap, IsSet is true at that index and unchanged at every
-- other one.
pub is_set-set_bit :
    (bitmap : Bytes) (i j : ℕ)
    → i < length bitmap * 8
    → is_set (set_bit bitmap (pos i)) (pos j) ≡ (if i == j then true else is_set bitmap (pos j))
is_set-set_bit bitmap i j h =
    rw (is_set-bit_at (set_bit bitmap (pos i)) j, is_set-bit_at bitmap j)
      (elim (ℕ_discrete i j) [
        | yes e ↦ rw (← e) (rw (bit_at-set_bit_self bitmap i h) (ground arith))
        | no ne ↦ rw (bit_at-set_bit_ne bitmap i j (λ e. ne (sym e))) (ground arith)
      ])

bit_at-new_bitmap : (n i : ℕ) → bit_at (new_bitmap n) i ≡ 0
unfolding new_bitmap
bit_at-new_bitmap n i = rw (get_or-replicate {A = ℕ} ((n + 7) / 8) (i / 8) 0) (bit-zero (i % 8))

-- A new bitmap for n validators has room for indices below n, and no bit set.
pub new_bitmap_lem :
    (n i : ℕ) → (n ≤ length (new_bitmap n) * 8) × (is_set (new_bitmap n) (pos i) ≡ false)
new_bitmap_lem n i = (
  unfold new_bitmap in omega (arith, length-replicate {A = ℕ} ((n + 7) / 8) 0),
  rw (is_set-bit_at (new_bitmap n) i) (ground (arith, bit_at-new_bitmap n i)),
)

get_or-or_bitmap :
    (dst src : Bytes) (i : ℕ)
    → length src ≡ length dst
    → get_or (or_bitmap dst src) i 0 ≡ bit_or (get_or dst i 0) (get_or src i 0)
unfolding or_bitmap
get_or-or_bitmap [] [] i h = refl
get_or-or_bitmap [] (s ∷ src) i h = absurd (omega arith)
get_or-or_bitmap (d ∷ dst) [] i h = absurd (omega arith)
get_or-or_bitmap (d ∷ dst) (s ∷ src) zero h = refl
get_or-or_bitmap (d ∷ dst) (s ∷ src) (suc i) h = get_or-or_bitmap dst src i (omega arith)

get_or-and_bitmap :
    (dst src : Bytes) (i : ℕ)
    → length src ≡ length dst
    → get_or (and_bitmap dst src) i 0 ≡ bit_and (get_or dst i 0) (get_or src i 0)
unfolding and_bitmap
get_or-and_bitmap [] [] i h = refl
get_or-and_bitmap [] (s ∷ src) i h = absurd (omega arith)
get_or-and_bitmap (d ∷ dst) [] i h = absurd (omega arith)
get_or-and_bitmap (d ∷ dst) (s ∷ src) zero h = refl
get_or-and_bitmap (d ∷ dst) (s ∷ src) (suc i) h = get_or-and_bitmap dst src i (omega arith)

or_test : (a b : ℕ) → a < 2 → b < 2 → (max a b == 1) ≡ (a == 1 || b == 1)
or_test a b p q = ground arith

and_test : (a b : ℕ) → a < 2 → b < 2 → (min a b == 1) ≡ (a == 1 && b == 1)
and_test a b p q = ground arith

-- On bitmaps of one length, OR sets exactly the bits that are set in either, and AND keeps exactly
-- the bits that are set in both.
is_set-or-and_bitmap :
    (dst src : Bytes) (i : ℕ)
    → length src ≡ length dst
    → (is_set (or_bitmap dst src) (pos i) ≡ (is_set dst (pos i) || is_set src (pos i)))
      × (is_set (and_bitmap dst src) (pos i) ≡ (is_set dst (pos i) && is_set src (pos i)))
is_set-or-and_bitmap dst src i h =
    rw (is_set-bit_at dst i, is_set-bit_at src i)
      (
        rw
            (
              is_set-bit_at (or_bitmap dst src) i,
              get_or-or_bitmap dst src (i / 8) h,
              bit-bit_or (i % 8) (get_or dst (i / 8) 0) (get_or src (i / 8) 0),
            )
            (or_test (bit_at dst i) (bit_at src i) (bit-lt (i % 8) _) (bit-lt (i % 8) _)),
        rw
            (
              is_set-bit_at (and_bitmap dst src) i,
              get_or-and_bitmap dst src (i / 8) h,
              bit-bit_and (i % 8) (get_or dst (i / 8) 0) (get_or src (i / 8) 0),
            )
            (and_test (bit_at dst i) (bit_at src i) (bit-lt (i % 8) _) (bit-lt (i % 8) _)),
      )
