-- ===== src/Network/Query/Agreement.antt =====
-- The queries agree with what the end of a block stores, and with each other.
use native.Mathlib.Nat.{le-div_iff_mul-le, div-lt_iff_lt-mul}
use go_execution_abci.Prelude.{
  ℕ, ◌+◌, ◌-◌, ◌*◌, ◌/◌, ◌%◌, ◌≤◌, ◌<◌, ◌≡◌, ◌↔◌, refl, ap, ◌∙◌, ==_refl, Bool, some, arith,
}
use go_execution_abci.Prelude.Int.{ℤ, pos, ℤ_eq, ◌≤ℤ◌, to_i64, i64_bound, u64_mod}
use go_execution_abci.Prelude.Map
use go_execution_abci.Prelude.Exec.{ok, then_ok-eq-ok, or_err, or_err-eq-ok}
use go_execution_abci.Network.Bitmap.{Bytes}
use go_execution_abci.Network.Types.{status_not_found, AttestationBitmap, Env, State}
use go_execution_abci.Network.Keeper.{
  get_params, get_attestation_bitmap, calculate_voted_power, get_total_power, is_soft_confirmed,
}
use go_execution_abci.Network.EndBlock.{process_checkpoint}
use go_execution_abci.Network.EndBlock.Checkpoint.{process_checkpoint_lem}
use go_execution_abci.Network.Query.{
  SoftConfirmationStatus, query_attestation_bitmap, query_soft_confirmation_status, epoch_start,
  epoch_end,
}

abbrev report : ℤ → Bytes → ℕ → ℕ → Bool → AttestationBitmap
report height bitmap voted total confirmed = record {
  height = height;
  bitmap = bitmap;
  voted_power = voted;
  total_power = total;
  soft_confirmed = confirmed;
}

query_parts :
    (env : Env) (height : ℤ) (s : State) (answer : AttestationBitmap)
    → query_attestation_bitmap env (some height) s ≡ ok answer
    → (bitmap : Bytes) × (voted : ℕ) × (total : ℕ) × (confirmed : Bool) × (get_attestation_bitmap s
          height
        ≡ some bitmap)
      × (calculate_voted_power bitmap s ≡ ok voted)
      × (get_total_power env ≡ ok total)
      × (is_soft_confirmed env height s ≡ ok confirmed)
      × (report height bitmap voted total confirmed ≡ answer)
unfolding query_attestation_bitmap
query_parts env height s answer h =
    let (bitmap, at_height, h₁) =
      then_ok-eq-ok (or_err (get_attestation_bitmap s height) status_not_found) _ h in
    let (voted, counted, h₂) = then_ok-eq-ok (calculate_voted_power bitmap s) _ h₁ in
    let (total, known, h₃) = then_ok-eq-ok (get_total_power env) _ h₂ in
    let (confirmed, decided, answered) = then_ok-eq-ok (is_soft_confirmed env height s) _ h₃ in
    (
      bitmap,
      voted,
      total,
      confirmed,
      or_err-eq-ok (get_attestation_bitmap s height) status_not_found at_height,
      counted,
      known,
      decided,
      cc answered,
    )

status_of :
    (env : Env) (height : ℤ) (s : State) (bitmap : Bytes) (voted total : ℕ) (confirmed : Bool)
    → get_attestation_bitmap s height ≡ some bitmap
    → calculate_voted_power bitmap s ≡ ok voted
    → get_total_power env ≡ ok total
    → is_soft_confirmed env height s ≡ ok confirmed
    → query_soft_confirmation_status env (some height) s
      ≡ ok (record {
        is_soft_confirmed = confirmed;
        voted_power = voted;
        total_power = total;
        quorum_fraction = (get_params s).quorum_fraction;
      })
unfolding query_soft_confirmation_status
status_of env height s bitmap voted total confirmed found counted known decided =
    rw (decided, known, found) (rw counted refl)

-- Where the query of a height's bitmap answers, a checkpoint of that height in the same state
-- succeeds and stores just this answer, and the query of the status answers with the same decision
-- and powers.
pub query_attestation_bitmap_agrees :
    (env : Env) (height : ℤ) (s : State) (answer : AttestationBitmap)
    → query_attestation_bitmap env (some height) s ≡ ok answer
    → (s' : State) × (status : SoftConfirmationStatus) × (process_checkpoint env height s
        ≡ (ok tt, s'))
      × (Map.get s'.stored_attestation_info height ≡ some answer)
      × (query_soft_confirmation_status env (some height) s ≡ ok status)
      × (status.is_soft_confirmed ≡ answer.soft_confirmed)
      × (status.voted_power ≡ answer.voted_power)
      × (status.total_power ≡ answer.total_power)
query_attestation_bitmap_agrees env height s answer h =
    let (bitmap, voted, total, confirmed, found, counted, known, decided, answered) =
      query_parts env height s answer h in
    let (s', ran, stored, _) =
      process_checkpoint_lem env height bitmap s voted total confirmed found counted known
        decided in
    (
      s',
      _,
      ran,
      stored height ∙ ground (arith, ==_refl height, ap (λ a. some a) answered),
      status_of env height s bitmap voted total confirmed found counted known decided,
      ap (λ a. a.soft_confirmed) answered,
      ap (λ a. a.voted_power) answered,
      ap (λ a. a.total_power) answered,
    )

module _ (epoch epoch_length : ℕ) (positive : 0 < epoch_length)
    (fits : (epoch + 1) * epoch_length < i64_bound) where
  next_start : (epoch + 1) * epoch_length ≡ epoch * epoch_length + epoch_length
  next_start = omega arith

  few_epochs : epoch + 1 ≤ (epoch + 1) * epoch_length
  few_epochs = grind arith

  start_lem : epoch_start epoch epoch_length ≡ pos (epoch * epoch_length)
  unfolding epoch_start to_i64
  start_lem = ground (arith, next_start)

  wrapped :
      ((epoch + 1) % u64_mod * epoch_length % u64_mod + u64_mod - 1) % u64_mod
      ≡ (epoch + 1) * epoch_length - 1
  wrapped =
      let small : (epoch + 1) % u64_mod ≡ epoch + 1 = omega (arith, few_epochs, fits) in
      rw small (omega (arith, few_epochs, fits))

  end_lem : epoch_end epoch epoch_length ≡ pos ((epoch + 1) * epoch_length - 1)
  unfolding epoch_end to_i64
  end_lem = ground (arith, wrapped)

-- The heights that the query of an epoch gives are those whose epoch it is, for a positive epoch
-- length and as long as the end of the epoch fits an int64.
epoch_range :
    (epoch epoch_length n : ℕ)
    → 0 < epoch_length
    → (epoch + 1) * epoch_length < i64_bound
    → ((epoch_start epoch epoch_length ≤ℤ pos n) × (pos n ≤ℤ epoch_end epoch epoch_length))
      ↔ (n / epoch_length ≡ epoch)
epoch_range epoch epoch_length n positive fits =
    rw (start_lem epoch epoch_length positive fits, end_lem epoch epoch_length positive fits)
      (
        λ h. ground (arith, between.0, between.1, under.0, under.1),
        λ e. ground (arith, between.0, between.1, under.0, under.1),
      )
  where
    between : (epoch ≤ n / epoch_length) ↔ (epoch * epoch_length ≤ n)
    between = le-div_iff_mul-le {k = epoch_length} {x = epoch} {y = n} positive

    under : (n / epoch_length < epoch + 1) ↔ (n < (epoch + 1) * epoch_length)
    under = div-lt_iff_lt-mul {k = epoch_length} {x = n} {y = epoch + 1} positive
