-- ===== src/Prelude/Sums.antt =====
-- Sums over the numbers below a bound, as loops over indices compute them.
use Prim.Native.Nat.{ℕ, zero, suc, ◌+◌, ◌<◌}
use mathlib.Core.Path.{◌≡◌, refl, sym, subst}
use mathlib.Core.Logic.{◌≢◌}
use native.Mathlib.Nat.{add-zero}
use native.Mathlib.Omega.{arith}
use native.Mathlib.Decide.{ℕ_discrete}

unfoldable pub total : ℕ → (ℕ → ℕ) → ℕ
total zero f = 0
total (suc n) f = total n f + f n

pub total-zero : (f : ℕ → ℕ) → total 0 f ≡ 0
unfolding total
total-zero f = refl

pub total-suc : (n : ℕ) (f : ℕ → ℕ) → total (suc n) f ≡ total n f + f n
unfolding total
total-suc n f = refl

pub total-suc_left : (n : ℕ) (f : ℕ → ℕ) → total (suc n) f ≡ f 0 + total n (λ i. f (suc i))
unfolding total
total-suc_left zero f = omega arith
total-suc_left (suc n) f = omega (arith, total-suc_left n f)

pub total-eq : (n : ℕ) (f g : ℕ → ℕ) → ((i : ℕ) → i < n → f i ≡ g i) → total n f ≡ total n g
unfolding total
total-eq zero f g h = refl
total-eq (suc n) f g h = omega (arith, h n (omega arith), total-eq n f g (λ i p. h i (omega arith)))

pub total-add : (m n : ℕ) (f : ℕ → ℕ) → total (n + m) f ≡ total n f + total m (λ i. f (n + i))
unfolding total
total-add zero n f = rw (add-zero n) (omega arith)
total-add (suc m) n f =
    let e : n + suc m ≡ suc (n + m) = omega arith in rw e (omega (arith, total-add m n f))

-- A sum with one term raised.
pub total_raise :
    (n k d : ℕ) (f g : ℕ → ℕ)
    → k < n
    → g k ≡ f k + d
    → ((i : ℕ) → i ≢ k → g i ≡ f i)
    → total n g ≡ total n f + d
unfolding total
total_raise zero k d f g lt at rest = elim lt [ ]
total_raise (suc n) k d f g lt at rest = elim (ℕ_discrete n k) [
  | yes e ↦
      omega
        (arith, subst (λ m. g m ≡ f m + d) (sym e) at, total-eq n g f (λ i p. rest i (omega arith)))
  | no ne ↦ omega (arith, rest n ne, total_raise n k d f g (omega arith) at rest)
]
