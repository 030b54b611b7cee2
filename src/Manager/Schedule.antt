-- ===== src/Manager/Schedule.antt =====
-- At which heights a migration runs and the chain halts.
use go_execution_abci.Prelude.{
  ℕ, ◌+◌, ◌≤◌, ◌<◌, ◌≡◌, ◌↔◌, Bool, true, false, some, arith, nat_eq, if◌then◌else◌,
}
use go_execution_abci.Prelude.Int.{pos, to_u64_pos, u64_mod}
use go_execution_abci.Manager.Types.{Keys, RollkitMigration, MsgMigrateToRollkit, State}
use go_execution_abci.Manager.Keeper.{is_migrating}

-- The number of blocks after its first one that a migration takes.
abbrev pub duration : Bool → ℕ
duration ibc = if ibc then 30 else 1

-- A stored migration is in progress from its height on, for 30 blocks more if IBC is enabled and one
-- more if not, as long as these heights fit a uint64.
is_migrating_iff :
    {K : Type 0} (ibc : Bool) (n : ℕ) (s : State K) (m : RollkitMigration K)
    → s.migration ≡ some m
    → m.block_height + 30 < u64_mod
    → n < u64_mod
    → ((is_migrating ibc (pos n) s).2 ≡ true)
      ↔ ((m.block_height ≤ n) × (n ≤ m.block_height + duration ibc))
unfolding is_migrating
is_migrating_iff true n s m stored fits small =
    (λ h. ground (arith, to_u64_pos n small), λ h. ground (arith, to_u64_pos n small))
is_migrating_iff false n s m stored fits small =
    (λ h. ground (arith, to_u64_pos n small), λ h. ground (arith, to_u64_pos n small))

abbrev requested : (keys : Keys) → MsgMigrateToRollkit keys.Key → State keys.Key → State keys.Key
requested keys msg s = record s {
  migration = some (record {
    block_height = msg.block_height;
    sequencer = msg.sequencer;
    attesters = msg.attesters;
  });
}
