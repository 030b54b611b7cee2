-- ===== src/Server/Migration/Blocks.antt =====
-- server/migration_cmd.go: the blocks that the loop migrates.
use go_execution_abci.Prelude.{
  ℕ, zero, suc, ◌+◌, ◌≤◌, ◌<◌, ◌≡◌, refl, Bool, true, false, leb, Option, none, some, List, [], ◌∷◌,
  arith,
}
use go_execution_abci.Prelude.Exec.{ok, Exec, ◌>>◌, pure, >>-cong}
use go_execution_abci.Compat.Types.{Block, Comet}
use go_execution_abci.Server.Migration.{
  max_missed_block, MigrationError, RollkitStores, migrate_block, migrate_blocks,
}

-- The blocks from a height down that are there, and the number of heights without one.
abbrev pub present : (ℕ → Option Block) → ℕ → List Block
present load zero = []
present load (suc n) = elim (load (suc n)) [ none ↦ present load n | some b ↦ b ∷ present load n ]

abbrev pub missing : (ℕ → Option Block) → ℕ → ℕ
missing load zero = 0
missing load (suc n) = elim (load (suc n)) [ none ↦ suc (missing load n) | some b ↦ missing load n ]

module _ {S : Type 0} (comet : Comet) (stores : RollkitStores S) (load : ℕ → Option Block) where
  -- A list of blocks, one after the other; the first of them may initialise the sync stores.
  abbrev pub migrate_all : Bool → List Block → Exec MigrationError S (Unit {0})
  migrate_all init [] = pure tt
  migrate_all init (b ∷ bs) = migrate_block comet stores load init b >> migrate_all false bs

  blocks_lem :
      (n missed : ℕ) (init : Bool)
      → missed + missing load n < max_missed_block
      → (s : S)
      → migrate_blocks comet stores load n missed init s ≡ migrate_all init (present load n) s
  unfolding migrate_blocks
  blocks_lem zero missed init few s = refl
  blocks_lem (suc n) missed init few s =
      rw (going missed (missing load (suc n)) few, migrate_blocks)
        (either (load (suc n)) few (λ h. blocks_lem n (suc missed) init h s)
          (λ h t. blocks_lem n missed false h t))
    where
      going : (k m : ℕ) → k + m < max_missed_block → leb max_missed_block k ≡ false
      going k m h = ground arith

      either :
          (found : Option Block)
          → missed + elim found [ none ↦ suc (missing load n) | some b ↦ missing load n ]
            < max_missed_block
          → (suc missed + missing load n < max_missed_block
              → migrate_blocks comet stores load n (suc missed) init s
                ≡ migrate_all init (present load n) s)
          → (missed + missing load n < max_missed_block
              → (t : S)
              → migrate_blocks comet stores load n missed false t
                ≡ migrate_all false (present load n) t)
          → elim found as (λ _. Exec MigrationError S (Unit {0})) [
            | none ↦ migrate_blocks comet stores load n (suc missed) init
            | some block ↦
                migrate_block comet stores load init block
                >> migrate_blocks comet stores load n missed false
          ]
              s
            ≡ migrate_all init
                (elim found [ none ↦ present load n | some b ↦ b ∷ present load n ])
                s
      either none h skip go = skip (omega arith)
      either (some b) h skip go = >>-cong (migrate_block comet stores load init b) (go h) s

  -- If fewer than 50 of the heights from 1 to the last are without a block, the loop migrates exactly the
  -- blocks that are there, each once, from the last height down, and the first of these initialises the
  -- sync stores; it ends as this list of migrations does, whether the stores succeed or fail.
  pub migrate_blocks_lem :
      (n : ℕ)
      → missing load n < max_missed_block
      → (s : S) → migrate_blocks comet stores load n 0 true s ≡ migrate_all true (present load n) s
  migrate_blocks_lem n few = blocks_lem n 0 true (omega arith)

  -- Once 50 heights were found without a block, the loop ends: the blocks below stay unmigrated.
  pub migrate_blocks_stops :
      (n missed : ℕ) (init : Bool) (s : S)
      → max_missed_block ≤ missed
      → migrate_blocks comet stores load n missed init s ≡ (ok tt, s)
  unfolding migrate_blocks
  migrate_blocks_stops zero missed init s h = refl
  migrate_blocks_stops (suc n) missed init s h = ground arith
