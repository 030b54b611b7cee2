-- ===== src/Prelude/Bits.antt =====
-- The bits of a number, and what `|` and `&` do to them, at every width.
use Prim.Native.Nat.{
  ℕ, zero, suc, ◌+◌, ◌*◌, ◌/◌, ◌%◌, ◌^◌, ◌≤◌, ◌<◌, min, max, digits, bitwise, bit_and, bit_or,
  bit_and-bitwise, bit_or-bitwise,
}
use native.Mathlib.Nat.{le_refl, pow-suc}
use mathlib.Core.Path.{◌≡◌, refl, ap}
use mathlib.Core.Logic.{◌≢◌}
use native.Mathlib.Omega.{arith}

-- Bit k of x, as 0 or 1.
abbrev pub bit : ℕ → ℕ → ℕ
bit x zero = x % 2
bit x (suc k) = bit (x / 2) k

-- The recursion on binary digits does not depend on its fuel.
module _ (z : ℕ → ℕ) (f : ℕ → ℕ → ℕ) where
  more_fuel : (fuel more x y : ℕ) → x ≤ fuel → x ≤ more → digits z f fuel x y ≡ digits z f more x y
  more_fuel zero zero x y p q = refl
  more_fuel (suc fuel) zero zero y p q = refl
  more_fuel (suc fuel) zero (suc x) y p q = absurd (omega (arith, q))
  more_fuel zero (suc more) zero y p q = refl
  more_fuel zero (suc more) (suc x) y p q = absurd (omega (arith, p))
  more_fuel (suc fuel) (suc more) zero y p q = refl
  more_fuel (suc fuel) (suc more) (suc x) y p q =
      rw (more_fuel fuel more (suc x / 2) (y / 2) (omega arith) (omega arith))

  bitwise_digit :
      (a b : ℕ)
      → bitwise z f (suc a) b ≡ bitwise z f (suc a / 2) (b / 2) * 2 + f (suc a % 2) (b % 2)
  bitwise_digit a b =
      omega (arith, more_fuel a (suc a / 2) (suc a / 2) (b / 2) (omega arith) (le_refl _))

pub bit_or_digit : (a b : ℕ) → bit_or a b ≡ bit_or (a / 2) (b / 2) * 2 + max (a % 2) (b % 2)
bit_or_digit zero b = simp bit_or-bitwise (omega arith)
bit_or_digit (suc a) b = simp bit_or-bitwise (bitwise_digit (λ y. y) max a b)

pub bit_and_digit : (a b : ℕ) → bit_and a b ≡ bit_and (a / 2) (b / 2) * 2 + min (a % 2) (b % 2)
bit_and_digit zero b = simp bit_and-bitwise (omega arith)
bit_and_digit (suc a) b = simp bit_and-bitwise (bitwise_digit (λ y. 0) min a b)

pub bit_or-halves : (a b : ℕ) → bit_or a b / 2 ≡ bit_or (a / 2) (b / 2)
bit_or-halves a b = omega (arith, bit_or_digit a b)

pub bit_and-halves : (a b : ℕ) → bit_and a b / 2 ≡ bit_and (a / 2) (b / 2)
bit_and-halves a b = omega (arith, bit_and_digit a b)

-- `|` and `&` act on each bit by itself.
pub bit-bit_or : (k a b : ℕ) → bit (bit_or a b) k ≡ max (bit a k) (bit b k)
bit-bit_or zero a b = omega (arith, bit_or_digit a b)
bit-bit_or (suc k) a b = rw (bit_or-halves a b) (bit-bit_or k (a / 2) (b / 2))

pub bit-bit_and : (k a b : ℕ) → bit (bit_and a b) k ≡ min (bit a k) (bit b k)
bit-bit_and zero a b = omega (arith, bit_and_digit a b)
bit-bit_and (suc k) a b = rw (bit_and-halves a b) (bit-bit_and k (a / 2) (b / 2))

pub bit-lt : (k x : ℕ) → bit x k < 2
bit-lt zero x = omega arith
bit-lt (suc k) x = bit-lt k (x / 2)

pub bit-zero : (k : ℕ) → bit 0 k ≡ 0
bit-zero zero = refl
bit-zero (suc k) = bit-zero k

half-two-pow : (k : ℕ) → 2 ^ suc k / 2 ≡ 2 ^ k
half-two-pow k = omega (arith, pow-suc 2 k)

-- A power of two has one bit.
pub bit-two-pow_self : (k : ℕ) → bit (2 ^ k) k ≡ 1
bit-two-pow_self zero = refl
bit-two-pow_self (suc k) = rw (half-two-pow k) (bit-two-pow_self k)

pub bit-two-pow_ne : (k j : ℕ) → k ≢ j → bit (2 ^ k) j ≡ 0
bit-two-pow_ne zero zero h = absurd (h refl)
bit-two-pow_ne zero (suc j) h = bit-zero j
bit-two-pow_ne (suc k) zero h = omega (arith, pow-suc 2 k)
bit-two-pow_ne (suc k) (suc j) h = rw (half-two-pow k) (bit-two-pow_ne k j (omega arith))

bit_and-zero : (n a : ℕ) → a ≤ n → bit_and a 0 ≡ 0
bit_and-zero n zero h = refl
bit_and-zero zero (suc a) h = absurd (omega arith)
bit_and-zero (suc n) (suc a) h =
    omega (arith, bit_and_digit (suc a) 0, bit_and-zero n (suc a / 2) (omega arith))

two-pow-suc : (b k : ℕ) → b * 2 ^ suc k ≡ b * 2 ^ k * 2
two-pow-suc b k = omega (arith, ap (λ (t : ℕ). b * t) (pow-suc 2 k))

-- The test `x & (1 << k)` reads bit k.
pub bit_and-two-pow : (k x : ℕ) → bit_and x (2 ^ k) ≡ bit x k * 2 ^ k
bit_and-two-pow zero x = omega (arith, bit_and_digit x 1, bit_and-zero (x / 2) (x / 2) (le_refl _))
bit_and-two-pow (suc k) x =
    let half : bit_and (x / 2) (2 ^ suc k / 2) ≡ bit (x / 2) k * 2 ^ k =
      rw (half-two-pow k) (bit_and-two-pow k (x / 2)) in
    omega (arith, half, bit_and_digit x (2 ^ suc k), two-pow-suc (bit (x / 2) k) k, pow-suc 2 k)
