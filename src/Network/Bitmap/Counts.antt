-- ===== src/Network/Bitmap/Counts.antt =====
-- PopCount and CountInRange count the same bits, and SetBit adds one.
use native.Mathlib.Nat.{add-zero}
use go_execution_abci.Prelude.{
  ℕ, zero, suc, ◌+◌, ◌-◌, ◌*◌, ◌/◌, ◌%◌, ◌<◌, ◌≤◌, ◌≡◌, ap, [], ◌∷◌, arith, nat_eq, if◌then◌else◌,
  length, get_or,
}
use go_execution_abci.Prelude.Int.{pos, ◌+ℤ◌, ◌-ℤ◌}
use go_execution_abci.Prelude.Bits.{bit-lt}
use go_execution_abci.Prelude.Sums.{
  total, total-zero, total-suc_left, total-eq, total-add, total_raise,
}
use go_execution_abci.Network.Bitmap.{
  Bytes, set_bit, is_set, ones_count8, pop_count_from, pop_count, count_loop, count_in_range,
}
use go_execution_abci.Network.Bitmap.Bits.{
  bit_at, is_set-bit_at, length-set_bit, bit_at-set_bit_self, bit_at-set_bit_ne,
}

bit_at_cons : (b : ℕ) (bitmap : Bytes) (i : ℕ) → bit_at (b ∷ bitmap) (8 + i) ≡ bit_at bitmap i
bit_at_cons b bitmap i =
    let q : (8 + i) / 8 ≡ suc (i / 8) = omega arith in
    let r : (8 + i) % 8 ≡ i % 8 = omega arith in rw (q, r)

first_byte : (b : ℕ) (bitmap : Bytes) → total 8 (bit_at (b ∷ bitmap)) ≡ ones_count8 b
unfolding total ones_count8
first_byte b bitmap = omega arith

total-bit_at :
    (count : ℕ) (bitmap : Bytes)
    → pop_count_from count bitmap ≡ count + total (length bitmap * 8) (bit_at bitmap)
unfolding pop_count_from
total-bit_at count [] = omega (arith, total-zero (bit_at []))
total-bit_at count (b ∷ bitmap) =
    let bits : length (b ∷ bitmap) * 8 ≡ 8 + length bitmap * 8 = omega arith in
    rw bits (
      omega (
        arith,
        total-bit_at (count + ones_count8 b) bitmap,
        total-add (length bitmap * 8) 8 (bit_at (b ∷ bitmap)),
        first_byte b bitmap,
        total-eq (length bitmap * 8) (λ i. bit_at (b ∷ bitmap) (8 + i)) (bit_at bitmap)
            (λ i p. bit_at_cons b bitmap i),
      ))

-- PopCount is the sum of the bits.
pub pop_count-total :
    (bitmap : Bytes) → pop_count bitmap ≡ total (length bitmap * 8) (bit_at bitmap)
unfolding pop_count
pop_count-total bitmap = omega (arith, total-bit_at 0 bitmap)

-- Setting a clear bit within the bitmap raises PopCount by one; setting a set bit leaves it.
pop_count-set_bit :
    (bitmap : Bytes) (i : ℕ)
    → i < length bitmap * 8
    → pop_count (set_bit bitmap (pos i))
      ≡ (if is_set bitmap (pos i) then pop_count bitmap else pop_count bitmap + 1)
pop_count-set_bit bitmap i h =
    let n : ℕ = length bitmap * 8 in
    let raised : total n (bit_at (set_bit bitmap (pos i)))
        ≡ total n (bit_at bitmap) + (1 - bit_at bitmap i) =
      total_raise n i (1 - bit_at bitmap i) (bit_at bitmap) (bit_at (set_bit bitmap (pos i))) h
        (omega (arith, bit_at-set_bit_self bitmap i h, bit-lt (i % 8) (get_or bitmap (i / 8) 0)))
        (λ j ne. bit_at-set_bit_ne bitmap i j ne) in
    rw
      (
        pop_count-total (set_bit bitmap (pos i)),
        pop_count-total bitmap,
        length-set_bit bitmap (pos i),
        is_set-bit_at bitmap i,
        raised,
      )
      (ground (arith, bit-lt (i % 8) (get_or bitmap (i / 8) 0)))

count_step :
    (bitmap : Bytes) (i c : ℕ) → (if is_set bitmap (pos i) then c + 1 else c) ≡ c + bit_at bitmap i
count_step bitmap i c =
    rw (is_set-bit_at bitmap i) (ground (arith, bit-lt (i % 8) (get_or bitmap (i / 8) 0)))

bit_at-eq : (bitmap : Bytes) (i j : ℕ) → i ≡ j → bit_at bitmap i ≡ bit_at bitmap j
bit_at-eq bitmap i j e = ap (bit_at bitmap) e

pos_next : (i : ℕ) → pos i +ℤ pos 1 ≡ pos (i + 1)
unfolding ◌+ℤ◌
pos_next i = ground arith

count_loop-total :
    (fuel : ℕ) (bitmap : Bytes) (i end count : ℕ)
    → i + fuel ≡ end
    → end ≤ length bitmap * 8
    → count_loop fuel bitmap (pos i) (pos end) count
      ≡ count + total fuel (λ j. bit_at bitmap (i + j))
unfolding count_loop
count_loop-total zero bitmap i end count e h =
    omega (arith, total-zero (λ j. bit_at bitmap (i + j)))
count_loop-total (suc fuel) bitmap i end count e h =
    rw (count_step bitmap i count, pos_next i)
      (ground (
        arith,
        count_loop-total fuel bitmap (i + 1) end (count + bit_at bitmap i) (omega arith) h,
        total-suc_left fuel (λ j. bit_at bitmap (i + j)),
        bit_at-eq bitmap (i + 0) i (add-zero i),
        total-eq fuel (λ j. bit_at bitmap (i + 1 + j)) (λ j. bit_at bitmap (i + suc j))
            (λ j _. bit_at-eq bitmap (i + 1 + j) (i + suc j) (omega arith)),
      ))

-- PopCount, by bytes, agrees with CountInRange, by indices, over the whole bitmap.
pop_count-count_in_range :
    (bitmap : Bytes) → pop_count bitmap ≡ count_in_range bitmap (pos 0) (pos (length bitmap * 8))
unfolding count_in_range ◌-ℤ◌
pop_count-count_in_range bitmap =
    let n : ℕ = length bitmap * 8 in
    rw (pop_count-total bitmap) (
      ground (
        arith,
        count_loop-total n bitmap 0 n 0 (omega arith) (omega arith),
        total-eq n (λ j. bit_at bitmap (0 + j)) (bit_at bitmap)
            (λ j _. bit_at-eq bitmap (0 + j) j (omega arith)),
      ))
