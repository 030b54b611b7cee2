-- ===== src/Manager/Answers.antt =====
-- No step of a migration over IBC fails where the keys convert and the lists are long enough.
use native.Mathlib.Nat.{mul-le-mul_right}
use go_execution_abci.Prelude.{
  ℕ, zero, suc, ◌+◌, ◌*◌, ◌≤◌, ◌<◌, ◌≡◌, refl, String, none, some, List, [], ◌∷◌, ◌++◌, map, arith,
  nat_eq, length,
}
use go_execution_abci.Prelude.Exec.{Outcome, ok, then_ok}
use go_execution_abci.Manager.Types.{
  Error, Keys, Validator, Attester, Sequencer, RollkitMigration, ValidatorUpdate, State,
}
use go_execution_abci.Manager.Updates.{
  step_part, wrap, tm_cons_public_key, zero_updates, attester_updates, sequencer_removals,
  migrate_to_sequencer, migrate_to_attesters, leaving, arriving, others, final_updates,
  step_updates, equal_powers, with_equal_powers,
}
use go_execution_abci.Manager.Keeper.{
  current_step, migrate_now, migrate_step, migrate_over, set_sequencer, set_migration_step,
}
use go_execution_abci.Manager.Steps.{per_step, step_part_ok}

-- The keys of the migration convert.
pub record IsConverting (keys : Keys) : Type 0 where
  pub removed : (k : keys.Key) → (c : keys.CmtKey) × (keys.zero_update k ≡ ok c)
  pub added : (k : keys.Key) → (c : keys.CmtKey) × (tm_cons_public_key keys k ≡ ok c)
  pub current : (k : keys.Key) → (c : keys.CmtKey) × (keys.cmt_cons_public_key k ≡ ok c)

-- No step of a migration begins past the end of the list.
abbrev pub IsCut : {A : Type 0} → List A → Type 0
IsCut xs = 29 * per_step (length xs) ≤ length xs

abbrev IsOk : {A : Type 0} → Outcome Error A → Type 0
IsOk {A = A} m = (a : A) × (m ≡ ok a)

then_ok-IsOk :
    {A B : Type 0} (m : Outcome Error A) (f : A → Outcome Error B)
    → IsOk m
    → ((a : A) → IsOk (f a))
    → IsOk (then_ok m f)
then_ok-IsOk m f (a, e) h = let (b, eb) = h a in (b, rw (e, eb) refl)

wrap-IsOk : {A : Type 0} (m : Outcome Error A) (e : Error) → IsOk m → IsOk (wrap m e)
wrap-IsOk m e (a, h) = (a, rw h refl)

part-IsOk : {A : Type 0} (step : ℕ) (xs : List A) → step < 30 → IsCut xs → IsOk (step_part step xs)
part-IsOk step xs early cut = (
  _,
  step_part_ok step xs
      (omega (arith, mul-le-mul_right {m = step} {n = 29} (per_step (length xs)) (omega arith))),
)

-- The lists that a migration cuts into steps have no step that begins past their end.
pub record IsSmooth (keys : Keys) (migration : RollkitMigration keys.Key)
    (vs : List (Validator keys.Key)) : Type 0 where
  pub removed : IsCut (others keys migration.sequencer vs)
  pub leaves : IsCut (leaving keys migration vs)
  pub arrives : IsCut (arriving keys migration vs)

module _ (keys : Keys) (converts : IsConverting keys) where
  open keys use {Key, CmtKey}

  zero_updates-IsOk : (vs : List (Validator Key)) → IsOk (zero_updates keys vs)
  unfolding zero_updates
  zero_updates-IsOk [] = (_, refl)
  zero_updates-IsOk (v ∷ vs) =
      then_ok-IsOk _ _ (converts.removed v.consensus_pubkey)
        λ key. then_ok-IsOk _ _ (zero_updates-IsOk vs) λ us. (_, refl)

  attester_updates-IsOk : (ats : List (Attester Key)) → IsOk (attester_updates keys ats)
  unfolding attester_updates
  attester_updates-IsOk [] = (_, refl)
  attester_updates-IsOk (a ∷ ats) =
      then_ok-IsOk _ _ (converts.added a.consensus_pubkey)
        λ key. then_ok-IsOk _ _ (attester_updates-IsOk ats) λ us. (_, refl)

  sequencer_removals-IsOk :
      (seq : Sequencer Key) (vs : List (Validator Key)) → IsOk (sequencer_removals keys seq vs)
  unfolding sequencer_removals
  sequencer_removals-IsOk seq [] = (_, refl)
  sequencer_removals-IsOk seq (v ∷ vs) =
      then_ok-IsOk _ _ (converts.removed v.consensus_pubkey)
        λ key. then_ok-IsOk _ _ (sequencer_removals-IsOk seq vs) λ us. (_, refl)

  equal_powers-IsOk :
      (existing : List String) (vs : List (Validator Key)) → IsOk (equal_powers keys existing vs)
  unfolding equal_powers
  equal_powers-IsOk existing [] = (_, refl)
  equal_powers-IsOk existing (v ∷ vs) =
      then_ok-IsOk _ _ (wrap-IsOk _ _ (converts.current v.consensus_pubkey))
        λ key. then_ok-IsOk _ _ (equal_powers-IsOk existing vs) λ us. (_, refl)

  final_updates-IsOk :
      (migration : RollkitMigration Key) (vs : List (Validator Key))
      → IsOk (final_updates keys migration vs)
  unfolding migrate_to_sequencer migrate_to_attesters
  final_updates-IsOk migration vs =
      elim migration.attesters
        as (λ ats. IsOk (elim ats [
          | [] ↦ migrate_to_sequencer keys migration vs
          | a ∷ rest ↦ migrate_to_attesters keys migration vs
        ])) [
          | [] ↦ then_ok-IsOk _ _ (converts.added migration.sequencer.consensus_pubkey) λ pk.
              then_ok-IsOk _ _ (sequencer_removals-IsOk migration.sequencer vs) λ us. (_, refl)
          | a ∷ rest ↦
              then_ok-IsOk _ _ (zero_updates-IsOk (leaving keys migration vs))
                λ us. then_ok-IsOk _ _ (attester_updates-IsOk migration.attesters) λ ws. (_, refl)
        ]

  module _ (migration : RollkitMigration Key) (vs : List (Validator Key))
      (smooth : IsSmooth keys migration vs) where
    step_updates-IsOk : (k : ℕ) → k < 30 → IsOk (step_updates keys k migration vs)
    unfolding step_updates
    step_updates-IsOk k early =
        elim migration.attesters
          as (λ ats. IsOk (elim ats [
            | [] ↦
                then_ok (step_part k (others keys migration.sequencer vs))
                  λ removed. zero_updates keys removed
            | a ∷ rest ↦ then_ok (step_part k (leaving keys migration vs)) λ removed.
                then_ok (zero_updates keys removed) λ removals.
                  then_ok (step_part k (arriving keys migration vs)) λ added.
                    then_ok (wrap (attester_updates keys added) Error.invalid_request)
                      λ additions. ok (removals ++ additions)
          ])) [
            | [] ↦
                then_ok-IsOk _ _
                  (part-IsOk k (others keys migration.sequencer vs) early smooth.removed)
                  λ part. zero_updates-IsOk part
            | a ∷ rest ↦
                then_ok-IsOk _ _ (part-IsOk k (leaving keys migration vs) early smooth.leaves)
                  λ part. then_ok-IsOk _ _ (zero_updates-IsOk part) λ us.
                    then_ok-IsOk _ _ (part-IsOk k (arriving keys migration vs) early smooth.arrives)
                      λ new.
                        then_ok-IsOk _ _ (wrap-IsOk _ _ (attester_updates-IsOk new)) λ ws. (_, refl)
          ]

    with_equal_powers-IsOk :
        (k : ℕ) (us : List (ValidatorUpdate CmtKey)) → IsOk (with_equal_powers keys k vs us)
    with_equal_powers-IsOk zero us =
        then_ok-IsOk _ _ (equal_powers-IsOk (map (λ u. keys.cmt_key_string u.pub_key) us) vs)
          λ more. (_, refl)
    with_equal_powers-IsOk (suc k) us = (us, ground arith)

    pub migrate_step_ok :
        (k : ℕ) (s : State Key)
        → current_step keys s ≡ k
        → k < 30
        → (us : List (ValidatorUpdate CmtKey)) × (migrate_over keys migration vs s
            ≡ (ok us, set_migration_step keys (some (k + 1)) s))
    unfolding migrate_over migrate_step
    migrate_step_ok k s at early =
        let (us, made) = step_updates-IsOk k early in
        let (ws, equalled) = with_equal_powers-IsOk k us in (ws, ground arith)

    pub migrate_end_ok :
        (s : State Key)
        → current_step keys s ≡ 30
        → (us : List (ValidatorUpdate CmtKey)) × (migrate_over keys migration vs s
            ≡ (ok us, set_sequencer keys migration.sequencer (set_migration_step keys none s)))
    unfolding migrate_over migrate_now
    migrate_end_ok s at =
        let (us, made) = wrap-IsOk _ Error.invalid_request (final_updates-IsOk migration vs) in
        (us, ground arith)
