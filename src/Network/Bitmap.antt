-- ===== src/Network/Bitmap.antt =====
-- modules/network/keeper/bitmap.go. A byte slice is a list of numbers below 256; what a method
-- writes through its slice argument is its result.
pub mod Bits
pub mod Counts
use Prim.Native.Nat.{bit_and, bit_or}
use go_execution_abci.Prelude.{
  ℕ, zero, suc, ◌+◌, ◌*◌, ◌/◌, ◌%◌, ◌^◌, Bool, true, false, ◌&&◌, not, List, [], ◌∷◌, map, ltb, leb,
  ◌==◌, nat_eq, if◌then◌else◌, length, get_or, set, replicate,
}
use go_execution_abci.Prelude.Int.{ℤ, pos, negsuc, ◌+ℤ◌, ◌-ℤ◌, ltb_ℤ, pos_part}
use go_execution_abci.Prelude.Bits.{bit}

abbrev pub Bytes : Type 0
Bytes = List ℕ

unfoldable pub new_bitmap : ℕ → Bytes
new_bitmap n = replicate ((n + 7) / 8) 0

unfoldable pub set_bit : Bytes → ℤ → Bytes
set_bit bitmap (negsuc i) = bitmap
set_bit bitmap (pos index) =
    if leb (length bitmap * 8) index
    then bitmap
    else set bitmap (index / 8) (bit_or (get_or bitmap (index / 8) 0) (2 ^ (index % 8)))

unfoldable pub is_set : Bytes → ℤ → Bool
is_set bitmap (negsuc i) = false
is_set bitmap (pos index) =
    if leb (length bitmap * 8) index
    then false
    else not (bit_and (get_or bitmap (index / 8) 0) (2 ^ (index % 8)) == 0)

-- bits.OnesCount8 of the standard library.
unfoldable pub ones_count8 : ℕ → ℕ
ones_count8 b = bit b 0 + bit b 1 + bit b 2 + bit b 3 + bit b 4 + bit b 5 + bit b 6 + bit b 7

pop_count_from : ℕ → Bytes → ℕ
pop_count_from count [] = count
pop_count_from count (b ∷ bitmap) = pop_count_from (count + ones_count8 b) bitmap

unfoldable pub pop_count : Bytes → ℕ
unfolding pop_count_from ones_count8
pop_count bitmap = pop_count_from 0 bitmap

-- `dst[i] |= src[i]` for i below both lengths.
unfoldable pub or_bitmap : Bytes → Bytes → Bytes
or_bitmap [] src = []
or_bitmap (d ∷ dst) [] = d ∷ dst
or_bitmap (d ∷ dst) (s ∷ src) = bit_or d s ∷ or_bitmap dst src

unfoldable pub and_bitmap : Bytes → Bytes → Bytes
and_bitmap [] src = []
and_bitmap (d ∷ dst) [] = d ∷ dst
and_bitmap (d ∷ dst) (s ∷ src) = bit_and d s ∷ and_bitmap dst src

unfoldable pub clear : Bytes → Bytes
clear = map (λ b. 0)

-- The loop of CountInRange, on fuel: `end - start` rounds are enough, as i grows to `end`.
count_loop : ℕ → Bytes → ℤ → ℤ → ℕ → ℕ
count_loop zero bitmap i end count = count
count_loop (suc fuel) bitmap i end count =
    let rest =
      count_loop fuel bitmap (i +ℤ pos 1) end (if is_set bitmap i then count + 1 else count) in
    if ltb_ℤ i end && ltb_ℤ i (pos (length bitmap * 8)) then rest else count

unfoldable pub count_in_range : Bytes → ℤ → ℤ → ℕ
unfolding count_loop is_set ◌+ℤ◌ ◌-ℤ◌
count_in_range bitmap start end = count_loop (pos_part (end -ℤ start)) bitmap start end 0
