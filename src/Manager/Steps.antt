-- ===== src/Manager/Steps.antt =====
-- The parts into which migrateOver cuts a list.
use go_execution_abci.Prelude.{
  ℕ, zero, suc, ◌+◌, ◌-◌, ◌*◌, ◌/◌, ◌≤◌, ◌<◌, ◌≡◌, ◌↔◌, ap, ◌∙◌, min, List, [], ◌++◌, arith, length,
  take, drop, some, length-drop, take-length, take-min, take-add,
}
use go_execution_abci.Prelude.Exec.{Outcome, ok, panic, then_ok}
use go_execution_abci.Manager.Types.{Error, Keys, Validator, RollkitMigration, State}
use go_execution_abci.Manager.Updates.{slice, step_part, step_updates, others}
use go_execution_abci.Manager.Keeper.{migrate_over, migrate_step}

abbrev pub per_step : ℕ → ℕ
per_step n = (n + 29) / 30

module _ {A : Type 0} where
  -- The step panics exactly when its first index lies beyond the list.
  pub step_part-panic_iff :
      (step : ℕ) (xs : List A)
      → (step_part step xs ≡ panic) ↔ (length xs < step * per_step (length xs))
  unfolding step_part slice
  step_part-panic_iff step xs = (λ h. ground arith, λ h. ground arith)

  part_take :
      (a p : ℕ) (xs : List A)
      → a ≤ length xs
      → take (min (a + p) (length xs) - a) (drop a xs) ≡ take p (drop a xs)
  part_take a p xs h =
      ap (λ n. take n (drop a xs)) (omega (arith, length-drop a xs)) ∙ take-min p (drop a xs)

  pub step_part_ok :
      (step : ℕ) (xs : List A)
      → step * per_step (length xs) ≤ length xs
      → step_part step xs ≡ ok (take (per_step (length xs)) (drop (step * per_step (length xs)) xs))
  unfolding step_part slice
  step_part_ok step xs h =
      ground (arith, part_take (step * per_step (length xs)) (per_step (length xs)) xs h)

  -- The parts of the first steps, one after another.
  abbrev pub joined : ℕ → List A → Outcome Error (List A)
  joined zero xs = ok []
  joined (suc step) xs =
      then_ok (joined step xs) λ before. then_ok (step_part step xs) λ part. ok (before ++ part)

  joined-take :
      (steps : ℕ) (xs : List A)
      → steps * per_step (length xs) ≤ length xs + per_step (length xs)
      → joined steps xs ≡ ok (take (steps * per_step (length xs)) xs)
  joined-take zero xs h =
      ap (λ n. ok (take n xs)) {x = 0} {y = 0 * per_step (length xs)} (omega arith)
  joined-take (suc step) xs h =
      rw (joined-take step xs (omega arith), step_part_ok step xs (omega arith))
        (ap ok (
          take-add (step * per_step (length xs)) (per_step (length xs)) xs
          ∙ ap (λ n. take n xs) {x = step * per_step (length xs) + per_step (length xs)}
              {y = suc step * per_step (length xs)} (omega arith)))

  -- For a list whose first 29 parts leave something or just end it, the thirty parts of the steps of
  -- a migration are the list, in its order and each item once.
  pub joined_lem : (xs : List A) → 29 * per_step (length xs) ≤ length xs → joined 30 xs ≡ ok xs
  joined_lem xs h =
      joined-take 30 xs (omega arith)
      ∙ ap ok (take-length (30 * per_step (length xs)) xs (omega arith))

-- A migration to a sequencer alone that is past its first step, with between 1 and 28 validators to
-- remove, panics at the step behind their number: its slice begins past the end of the list.
pub migrate_over_panics :
    (keys : Keys) (migration : RollkitMigration keys.Key) (validators : List (Validator keys.Key))
    (s : State keys.Key)
    → migration.attesters ≡ []
    → 0 < length (others keys migration.sequencer validators)
    → length (others keys migration.sequencer validators) < 29
    → s.migration_step ≡ some (length (others keys migration.sequencer validators) + 1)
    → migrate_over keys migration validators s ≡ (panic, s)
unfolding migrate_over migrate_step step_updates
migrate_over_panics keys migration validators s alone some_left few step = ground (
  arith,
  step_part-panic_iff (length (others keys migration.sequencer validators) + 1)
      (others keys migration.sequencer validators),
)
