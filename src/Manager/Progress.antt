-- ===== src/Manager/Progress.antt =====
-- A migration over IBC runs to its end.
use go_execution_abci.Prelude.{
  ℕ, zero, suc, ◌+◌, ◌≤◌, ◌<◌, ◌≡◌, refl, ap, ◌∙◌, true, Option, none, some, List, [], ◌∷◌, ◌++◌,
  arith, nat_eq,
}
use go_execution_abci.Prelude.Int.{pos, to_u64_pos, u64_mod}
use go_execution_abci.Prelude.Exec.{ok, Exec, ◌>>=◌, pure}
use go_execution_abci.Manager.Types.{
  Error, Keys, Validator, RollkitMigration, ValidatorUpdate, State,
}
use go_execution_abci.Manager.Keeper.{
  is_migrating, current_step, migrate_over, end_block, set_sequencer, set_migration_step,
}
use go_execution_abci.Manager.Answers.{IsConverting, IsSmooth, migrate_step_ok, migrate_end_ok}

module _ (keys : Keys) (converts : IsConverting keys) (migration : RollkitMigration keys.Key)
    (vs : List (Validator keys.Key)) (smooth : IsSmooth keys migration vs) where
  open keys use {Key, CmtKey}

  end_block_over :
      (n : ℕ) (s : State Key)
      → s.migration ≡ some migration
      → migration.block_height + 30 < u64_mod
      → migration.block_height ≤ n
      → n ≤ migration.block_height + 30
      → end_block keys true (ok vs) (pos n) s ≡ migrate_over keys migration vs s
  unfolding end_block is_migrating
  end_block_over n s stored fits from until = ground (arith, to_u64_pos n (omega arith))

  -- The ends of the first blocks of the migration, with the updates that they return.
  abbrev pub blocks : ℕ → Exec Error (State Key) (List (List (ValidatorUpdate CmtKey)))
  blocks zero = pure []
  blocks (suc k) = do
    before ← blocks k
    updates ← end_block keys true (ok vs) (pos (migration.block_height + k))
    pure (before ++ (updates ∷ []))

  abbrev after : ℕ → State Key → State Key
  after zero s = s
  after (suc k) s = set_migration_step keys (some (suc k)) s

  after_step :
      (k : ℕ) (s : State Key)
      → s.migration_step ≡ none
      → (current_step keys (after k s) ≡ k) × ((after k s).migration ≡ s.migration)
  unfolding set_migration_step
  after_step zero s unset = (ground arith, refl)
  after_step (suc k) s unset = (refl, refl)

  set_step-after :
      (k : ℕ) (step : Option ℕ) (s : State Key)
      → set_migration_step keys step (after k s) ≡ set_migration_step keys step s
  unfolding set_migration_step
  set_step-after zero step s = refl
  set_step-after (suc k) step s = refl

  blocks_step :
      (k : ℕ) (s : State Key)
      → s.migration ≡ some migration
      → s.migration_step ≡ none
      → migration.block_height + 30 < u64_mod
      → k ≤ 30
      → (outs : List (List (ValidatorUpdate CmtKey))) × (blocks k s ≡ (ok outs, after k s))
  blocks_step zero s stored unset fits h = ([], refl)
  blocks_step (suc k) s stored unset fits h =
      let (outs, ran) = blocks_step k s stored unset fits (omega arith) in
      let (us, stepped) =
        migrate_step_ok keys converts migration vs smooth k (after k s) (after_step k s unset).0
          (omega arith) in
      (
        outs ++ (us ∷ []),
        rw
            (
              ran,
              end_block_over (migration.block_height + k) (after k s)
                  ((after_step k s unset).1 ∙ stored) fits (omega arith) (omega arith),
              stepped,
              set_step-after k (some (k + 1)) s,
            )
            (ap (λ n. (ok (outs ++ (us ∷ [])), set_migration_step keys (some n) s)) {x = k + 1}
              {y = suc k} (omega arith)),
      )

  after-sequencer : (k : ℕ) (s : State Key) → (after k s).sequencer ≡ s.sequencer
  unfolding set_migration_step
  after-sequencer zero s = refl
  after-sequencer (suc k) s = refl

  -- With IBC enabled, keys that convert, and lists that no step overruns, the ends of the 31
  -- blocks from the height of a new migration on all succeed when the last validators stay the
  -- same: the sequencer changes in the last of them and not before, to the one of the migration,
  -- and the count of steps is cleared.
  pub blocks_complete :
      (s : State Key)
      → s.migration ≡ some migration
      → s.migration_step ≡ none
      → migration.block_height + 30 < u64_mod
      → (outs : List (List (ValidatorUpdate CmtKey))) × (s' : State Key) × (blocks 31 s
          ≡ (ok outs, s'))
        × (s'.sequencer ≡ some migration.sequencer)
        × (s'.migration_step ≡ none)
        × ((k : ℕ) → k ≤ 30 → (blocks k s).1.sequencer ≡ s.sequencer)
  blocks_complete s stored unset fits =
      let (outs, ran) = blocks_step 30 s stored unset fits (omega arith) in
      let (us, ended) =
        migrate_end_ok keys converts migration vs smooth (after 30 s) (after_step 30 s unset).0 in
      (
        outs ++ (us ∷ []),
        set_sequencer keys migration.sequencer (set_migration_step keys none (after 30 s)),
        rw
            (
              ran,
              end_block_over (migration.block_height + 30) (after 30 s)
                  ((after_step 30 s unset).1 ∙ stored) fits (omega arith) (omega arith),
              ended,
            )
            refl,
        unfold set_sequencer in refl,
        unfold set_sequencer set_migration_step in refl,
        λ k h. rw ((blocks_step k s stored unset fits h).1) (after-sequencer k s),
      )
