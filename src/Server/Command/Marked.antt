-- ===== src/Server/Command/Marked.antt =====
-- server/migration_cmd.go and server/start.go: the node after a migration that may have failed.
use go_execution_abci.Prelude.{ℕ, zero, suc, ◌≡◌, refl, Bool, true, false, leb, Option, none, some}
use go_execution_abci.Prelude.Int.{ℤ, pos_part, to_u64}
use go_execution_abci.Prelude.Exec.{pure, Outcome, ok, err, panic, Exec, ◌>>◌, Keeps, >>=-Keeps}
use go_execution_abci.Compat.Types.{Block}
use go_execution_abci.Server.Migration.{
  MigrationError, OldState, MigrationGenesis, MigratedHeader, MigratedData, migration_genesis,
  max_missed_block, migrated_header, migrated_data, migrate_block, migrate_blocks, migrate,
}
use go_execution_abci.Server.Genesis.{
  Host, load_migration_genesis, start_genesis, to_rollkit_genesis, migrated_app_genesis,
}
use go_execution_abci.Server.Genesis.Migrated.{IsHost, load-create}
use go_execution_abci.Server.Command.{
  Command, stored_key, convert_state, write_migration_genesis, after_close, join, close_stores,
  migrate_to_rollkit,
}

-- The disk holds the genesis of a migration.
abbrev pub Marked : {S : Type 0} → Host S → MigrationGenesis → S → Type 0
Marked host g s = load_migration_genesis host s ≡ ok (some g)

-- What is relied on: the stores of blocks and heights do not touch the file of the genesis.
pub record Apart {S Q : Type 0} (host : Host S) (c : Command S Q) : Type 0 where
  pub save_block_data :
      (g : MigrationGenesis) (h : MigratedHeader) (d : MigratedData)
      → Keeps (Marked host g) (c.stores.save_block_data h d)
  pub init_header_sync :
      (g : MigrationGenesis) (h : MigratedHeader)
      → Keeps (Marked host g) (c.stores.init_header_sync h)
  pub init_data_sync :
      (g : MigrationGenesis) (d : MigratedData) → Keeps (Marked host g) (c.stores.init_data_sync d)
  pub set_height : (g : MigrationGenesis) (h : ℕ) → Keeps (Marked host g) (c.stores.set_height h)
  pub close_rollkit_store : (g : MigrationGenesis) → Keeps (Marked host g) c.close_rollkit_store
  pub close_block_store : (g : MigrationGenesis) → Keeps (Marked host g) c.close_block_store
  pub close_state_store : (g : MigrationGenesis) → Keeps (Marked host g) c.close_state_store

module _ {S Q : Type 0} (host : Host S) (c : Command S Q) (apart : Apart host c)
    (g : MigrationGenesis) where
  abbrev M : S → Type 0
  M = Marked host g

  sync-Keeps :
      (b : Block)
      → Keeps M (
          c.stores.init_header_sync (migrated_header c.comet b)
          >> c.stores.init_data_sync (migrated_data b))
  sync-Keeps b =
      >>=-Keeps M (c.stores.init_header_sync (migrated_header c.comet b)) _
        (apart.init_header_sync g (migrated_header c.comet b))
        (λ _. apart.init_data_sync g (migrated_data b))

  migrate_block-Keeps :
      (first : Bool) (b : Block) → Keeps M (migrate_block c.comet c.stores c.load_block first b)
  unfolding migrate_block
  migrate_block-Keeps true b =
      >>=-Keeps M (c.stores.save_block_data (migrated_header c.comet b) (migrated_data b)) _
        (apart.save_block_data g (migrated_header c.comet b) (migrated_data b)) (λ _. sync-Keeps b)
  migrate_block-Keeps false b =
      >>=-Keeps M (c.stores.save_block_data (migrated_header c.comet b) (migrated_data b)) _
        (apart.save_block_data g (migrated_header c.comet b) (migrated_data b))
        (λ _. record { keeps = λ s m. m })

  migrate_blocks-Keeps :
      (n missed : ℕ) (first : Bool)
      → Keeps M (migrate_blocks c.comet c.stores c.load_block n missed first)
  unfolding migrate_blocks
  migrate_blocks-Keeps zero missed first = record { keeps = λ s m. m }
  migrate_blocks-Keeps (suc n) missed first =
      one_round (leb max_missed_block missed) (c.load_block (suc n))
        (migrate_blocks-Keeps n (suc missed) first) (migrate_blocks-Keeps n missed false)
    where
      one_round :
          (stop : Bool) (found : Option Block)
          → Keeps M (migrate_blocks c.comet c.stores c.load_block n (suc missed) first)
          → Keeps M (migrate_blocks c.comet c.stores c.load_block n missed false)
          → Keeps M (elim stop as (λ _. Exec MigrationError S (Unit {0})) [
            | true ↦ pure tt
            | false ↦ elim found as (λ _. Exec MigrationError S (Unit {0})) [
              | none ↦ migrate_blocks c.comet c.stores c.load_block n (suc missed) first
              | some block ↦
                  migrate_block c.comet c.stores c.load_block first block
                  >> migrate_blocks c.comet c.stores c.load_block n missed false
            ]
          ])
      one_round true found skip go = record { keeps = λ s m. m }
      one_round false none skip go = skip
      one_round false (some b) skip go =
          >>=-Keeps M (migrate_block c.comet c.stores c.load_block first b) _
            (migrate_block-Keeps first b) (λ _. go)

  migrate-Keeps : (last : ℤ) → Keeps M (migrate c.comet c.stores c.load_block last)
  unfolding migrate
  migrate-Keeps last =
      >>=-Keeps M (migrate_blocks c.comet c.stores c.load_block (pos_part last) 0 true) _
        (migrate_blocks-Keeps (pos_part last) 0 true) (λ _. apart.set_height g (to_u64 last))

  close-Keeps :
      (m n : Exec MigrationError S (Unit {0})) → Keeps M m → Keeps M n → Keeps M (join m n)
  unfolding join
  close-Keeps m n h k = record { keeps = λ s p. closed (m s).0 (m s).1 (h.keeps s p) }
    where
      closed : (r : Outcome MigrationError (Unit {0})) (t : S) → M t → M (after_close r t n).1
      closed (ok _) t p = k.keeps t p
      closed (err e) t p = k.keeps t p
      closed panic t p = p

  close_stores-Keeps : Keeps M (close_stores c)
  unfolding close_stores
  close_stores-Keeps =
      close-Keeps c.close_rollkit_store (join c.close_block_store c.close_state_store)
        (apart.close_rollkit_store g)
        (close-Keeps c.close_block_store c.close_state_store (apart.close_block_store g)
          (apart.close_state_store g))

  remainder-Keeps :
      (last : ℤ) → Keeps M (migrate c.comet c.stores c.load_block last >> close_stores c)
  remainder-Keeps last =
      >>=-Keeps M (migrate c.comet c.stores c.load_block last) _ (migrate-Keeps last)
        (λ _. close_stores-Keeps)

-- As soon as the command has written the genesis of the migration, the node is that of the migrated
-- chain: whether the migration of the blocks then succeeds, fails or panics, a node that is started on
-- the disk takes the genesis of the migration, with the chain, the initial height and the time of the
-- old state.
pub start_genesis-migrate_to_rollkit :
    {S Q : Type 0} (host : Host S) (c : Command S Q)
    → IsHost host
    → Apart host c
    → (s t u : S) (old : OldState) → convert_state c s ≡ (ok old, t)
    → write_migration_genesis c host old t ≡ (ok tt, u)
    → (g : MigrationGenesis) × (migration_genesis c.address_of old (stored_key c.application_db t)
        ≡ ok g)
      × (start_genesis host (migrate_to_rollkit c host s).1
          ≡ ok (to_rollkit_genesis host g, migrated_app_genesis host g))
unfolding start_genesis write_migration_genesis migrate_to_rollkit
start_genesis-migrate_to_rollkit host c law apart s t u old converted wrote =
    let (g, made, marked) =
      load-create host law c.address_of old (stored_key c.application_db t) t u wrote in
    let kept : Marked host g (migrate_to_rollkit c host s).1 =
      rw (converted, wrote)
        ((remainder-Keeps host c apart g old.last_block_height).keeps u marked) in
    (g, made, rw (kept, start_genesis) refl)
