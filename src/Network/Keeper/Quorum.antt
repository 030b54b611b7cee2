-- ===== src/Network/Keeper/Quorum.antt =====
-- The quorum of voted powers, over decimals with 18 places.
use go_execution_abci.Prelude.{ℕ, ◌+◌, ◌*◌, ◌/◌, ◌<◌, ◌≤◌, ◌≡◌, ◌↔◌, true, some, arith, leb}
use go_execution_abci.Prelude.Int.{ℤ, pos, to_i64, i64_bound, u64_mod}
use go_execution_abci.Prelude.Exec.{ok}
use go_execution_abci.Network.Types.{Env, State}
use go_execution_abci.Network.Keeper.{get_params, check_quorum}

abbrev pub one_unit : ℕ
one_unit = 1000000000000000000

-- What cosmossdk.io/math documents of the operations that the module uses: a decimal is an integer
-- number of units of 10^-18, the product of an integer and a decimal is exact, truncation drops the
-- fraction, and Uint64 returns the numbers that fit.
pub record IsDecimal (env : Env) : Type 0 where
  pub units : env.LegacyDec → ℤ
  pub product :
      (n a : ℕ) (d : env.LegacyDec)
      → units d ≡ pos a
      → units (env.mul (env.new_dec (pos n)) d) ≡ pos (n * a)
  pub truncated :
      (n : ℕ) (d : env.LegacyDec) → units d ≡ pos n → env.truncate_int d ≡ pos (n / one_unit)
  pub fits : (n : ℕ) → n < u64_mod → env.uint64 (pos n) ≡ ok n

module _ (env : Env) (dec : IsDecimal env) where
  quorum_bound : (t a : ℕ) → a ≤ one_unit → t * a / one_unit ≤ t
  quorum_bound t a h = grind arith

  pub check_quorum-floor :
      (s : State) (voted total a : ℕ) (d : env.LegacyDec)
      → env.new_dec_from_str (get_params s).quorum_fraction ≡ some d
      → dec.units d ≡ pos a
      → a ≤ one_unit
      → total < i64_bound
      → check_quorum env voted total s ≡ ok (leb (total * a / one_unit) voted)
  unfolding check_quorum to_i64
  check_quorum-floor s voted total a d parsed fraction small fits = ground (
    arith,
    dec.truncated (total * a) (env.mul (env.new_dec (pos total)) d)
        (dec.product total a d fraction),
    dec.fits (total * a / one_unit),
    quorum_bound total a small,
  )

  -- For a total power that fits an int64 and a quorum fraction of a units, at most 1, a voted power
  -- meets the quorum exactly if the next larger power exceeds the fraction of the total: the
  -- requirement is rounded down.
  pub check_quorum_iff :
      (s : State) (voted total a : ℕ) (d : env.LegacyDec)
      → env.new_dec_from_str (get_params s).quorum_fraction ≡ some d
      → dec.units d ≡ pos a
      → a ≤ one_unit
      → total < i64_bound
      → (check_quorum env voted total s ≡ ok true) ↔ (total * a < (voted + 1) * one_unit)
  check_quorum_iff s voted total a d parsed fraction small fits = (
    λ h. ground (arith, check_quorum-floor s voted total a d parsed fraction small fits),
    λ h. ground (arith, check_quorum-floor s voted total a d parsed fraction small fits),
  )
