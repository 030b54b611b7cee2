-- ===== src/Manager/Keeper.antt =====
-- modules/rollkitmngr/keeper: IsMigrating of keeper.go, migrateNow and migrateOver of migration.go, the
-- block hooks of abci.go and the handler of msg_server.go.
use go_execution_abci.Prelude.{
  ℕ, ◌+◌, ◌%◌, String, Bool, true, false, ◌&&◌, ◌||◌, not, Option, none, some, List, [], ltb, leb,
  ◌==◌, nat_eq, string_eq, if◌then◌else◌,
}
use go_execution_abci.Prelude.Int.{ℤ, to_u64, u64_mod}
use go_execution_abci.Prelude.Exec.{
  Outcome, ok, err, Exec, ◌>>=◌, ◌>>◌, pure, reads, gets, modify, guard,
}
use go_execution_abci.Manager.Types.{
  Error, invalid_signer, invalid_request, logic, switch_binary, Keys, Validator, Sequencer,
  RollkitMigration, ValidatorUpdate, MsgMigrateToRollkit, State,
}
use go_execution_abci.Manager.Updates.{
  ibc_smoothing_factor, wrap, final_updates, step_updates, with_equal_powers,
}

-- Whether the keeper has a key of the IBC store, and the store opens without a panic.
unfoldable pub is_ibc_enabled : Bool → Bool → Bool
is_ibc_enabled has_store_key store_opens = has_store_key && store_opens

-- IsMigrating: the first and the last height of the migration, and whether it is in progress.
unfoldable pub is_migrating : {K : Type 0} → Bool → ℤ → State K → ℕ × ℕ × Bool
unfolding to_u64
is_migrating ibc height s = elim s.migration [
  | none ↦ (0, 0, false)
  | some m ↦
      let end =
        if ibc
        then (m.block_height + ibc_smoothing_factor) % u64_mod
        else (m.block_height + 1) % u64_mod in
      (m.block_height, end, leb m.block_height (to_u64 height) && leb (to_u64 height) end)
]

module _ (keys : Keys) where
  open keys use {Key, CmtKey}

  unfoldable pub set_sequencer : Sequencer Key → State Key → State Key
  set_sequencer seq s = record s { sequencer = some seq }

  unfoldable pub set_migration_step : Option ℕ → State Key → State Key
  set_migration_step step s = record s { migration_step = step }

  unfoldable pub migrate_now :
      RollkitMigration Key
      → List (Validator Key)
      → Exec Error (State Key) (List (ValidatorUpdate CmtKey))
  migrate_now migration validators = do
    updates ← reads (λ _. wrap (final_updates keys migration validators) invalid_request)
    modify (set_sequencer migration.sequencer)
    pure updates

  abbrev pub current_step : State Key → ℕ
  current_step s = elim s.migration_step [ none ↦ 0 | some step ↦ step ]

  -- A step of migrateOver before the last one.
  unfoldable pub migrate_step :
      ℕ
      → RollkitMigration Key
      → List (Validator Key)
      → Exec Error (State Key) (List (ValidatorUpdate CmtKey))
  migrate_step step migration validators = do
    updates ← reads (λ _. step_updates keys step migration validators)
    modify (set_migration_step (some (step + 1)))
    reads (λ _. with_equal_powers keys step validators updates)

  unfoldable pub migrate_over :
      RollkitMigration Key
      → List (Validator Key)
      → Exec Error (State Key) (List (ValidatorUpdate CmtKey))
  migrate_over migration validators = do
    step ← gets current_step
    elim (leb ibc_smoothing_factor step) [
      | true ↦ modify (set_migration_step none) >> migrate_now migration validators
      | false ↦ migrate_step step migration validators
    ]

  -- EndBlock: `validators` is the staking keeper's answer to GetLastValidators.
  unfoldable pub end_block :
      Bool
      → Outcome Error (List (Validator Key))
      → ℤ
      → Exec Error (State Key) (List (ValidatorUpdate CmtKey))
  end_block ibc validators height s =
      let (start, end, migrating) = is_migrating ibc height s in
      if not migrating || ltb (to_u64 height) start then (ok [], s) else elim s.migration [
        | none ↦ (err logic, s)
        | some migration ↦
            (reads (λ _. validators) >>= λ vs.
            if ibc then migrate_over migration vs else migrate_now migration vs)
              s
      ]

  unfoldable pub pre_blocker : Bool → ℤ → Exec Error (State Key) (Unit {0})
  pre_blocker ibc height s =
      let (start, end, migrating) = is_migrating ibc height s in
      if ltb 0 end && ((end + 1) % u64_mod == to_u64 height)
      then (err switch_binary, record s { migration = none })
      else (ok tt, s)

  unfoldable pub migrate_to_rollkit :
      String → ℤ → MsgMigrateToRollkit Key → Exec Error (State Key) (Unit {0})
  migrate_to_rollkit authority height msg = do
    guard (authority == msg.authority) invalid_signer
    guard (not (ltb msg.block_height (to_u64 height))) invalid_request
    modify (λ s. record s {
      migration = some (record {
        block_height = msg.block_height;
        sequencer = msg.sequencer;
        attesters = msg.attesters;
      });
    })
