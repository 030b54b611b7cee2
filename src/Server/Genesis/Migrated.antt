-- ===== src/Server/Genesis/Migrated.antt =====
-- server/start.go after server/migration_cmd.go: the node that starts on a migrated chain.
use go_execution_abci.Prelude.{ℕ, String, ◌≡◌, refl, false, some, [], ◌∷◌, sym, ap, ◌∙◌}
use go_execution_abci.Prelude.Int.{pos, to_u64}
use go_execution_abci.Prelude.Exec.{Outcome, ok, then_ok-eq-ok, continue-eq-ok, ok_inj}
use go_execution_abci.Compat.Types.{Bytes}
use go_execution_abci.Adapter.Env.{AppGenesis}
use go_execution_abci.Server.Migration.{
  MigrationError, OldState, MigrationGenesis, migration_genesis, sequencer_of,
}
use go_execution_abci.Server.Genesis.{
  Host, RollkitGenesis, create_migration_genesis, load_migration_genesis, start_genesis,
  to_rollkit_genesis, migrated_app_genesis,
}

-- What is relied on: a file that was written is there with its bytes, JSON is read back as it was
-- written, and NewGenesis keeps what it is given.
pub record IsHost {S : Type 0} (host : Host S) : Type 0 where
  pub written :
      (s s' : S) (bytes : Bytes)
      → host.write_file bytes s ≡ (ok tt, s')
      → (host.is_missing s' ≡ false) × (host.read_file s' ≡ ok bytes)
  pub decoded :
      (g : MigrationGenesis) (bytes : Bytes)
      → host.marshal g ≡ ok bytes
      → host.unmarshal bytes ≡ ok g
  pub made :
      (chain_id : String) (initial_height genesis_time : ℕ) (address : Bytes)
      → host.new_genesis chain_id initial_height genesis_time address ≡ record {
        chain_id = chain_id;
        initial_height = initial_height;
        genesis_da_start_time = genesis_time;
        proposer_address = address;
      }

module _ {S : Type 0} (host : Host S) (law : IsHost host) where
  pub load-create :
      (address_of : Bytes → Bytes) (old : OldState) (stored : Outcome MigrationError Bytes)
      (s s' : S)
      → create_migration_genesis host address_of old stored s ≡ (ok tt, s')
      → (g : MigrationGenesis) × (migration_genesis address_of old stored ≡ ok g)
        × (load_migration_genesis host s' ≡ ok (some g))
  unfolding create_migration_genesis load_migration_genesis
  load-create address_of old stored s s' h =
      let (g, made, h1) = continue-eq-ok (migration_genesis address_of old stored) s _ h in
      let (bytes, encoded, h2) = continue-eq-ok (host.marshal g) s _ h1 in
      let (there, content) = law.written s s' bytes h2 in
      (g, made, rw (there, content, law.decoded g bytes encoded) refl)

  -- If the migration's genesis was written, the node starts with it, whatever the genesis file of the
  -- application says: with the chain, the initial height and the last block's time of the old state,
  -- and with the sequencer of the migration as its proposer and as the one validator, of power 1.
  pub start_genesis-create :
      (address_of : Bytes → Bytes) (old : OldState) (stored : Outcome MigrationError Bytes)
      (s s' : S)
      → create_migration_genesis host address_of old stored s ≡ (ok tt, s')
      → (v : Bytes × Bytes) × (g : RollkitGenesis) × (a : AppGenesis) × (sequencer_of address_of
            old.last_validators stored
          ≡ ok v)
        × (start_genesis host s' ≡ ok (g, a))
        × (g ≡ record {
          chain_id = old.chain_id;
          initial_height = to_u64 old.initial_height;
          genesis_da_start_time = old.last_block_time;
          proposer_address = v.0;
        })
        × (a.chain_id ≡ old.chain_id)
        × (a.validators
            ≡ record {
              address = v.0;
              pub_key = v.1;
              voting_power = pos 1;
              proposer_priority = pos 0;
            }
              ∷ [])
  unfolding start_genesis migration_genesis migrated_app_genesis to_rollkit_genesis
  start_genesis-create address_of old stored s s' h =
      let (g, made, loaded) = load-create address_of old stored s s' h in
      let (v, chosen, h1) =
        then_ok-eq-ok (sequencer_of address_of old.last_validators stored) _ made in
      let same = ok_inj h1 in
      (
        v,
        to_rollkit_genesis host g,
        migrated_app_genesis host g,
        chosen,
        rw (loaded, start_genesis) refl,
        law.made g.chain_id g.initial_height g.genesis_time g.sequencer_addr
            ∙ ap
                (λ r. record {
                  chain_id = r.chain_id;
                  initial_height = r.initial_height;
                  genesis_da_start_time = r.genesis_time;
                  proposer_address = r.sequencer_addr;
                })
                (sym same),
        ap (λ r. r.chain_id) (sym same),
        ap
            (λ r.
              record {
                address = r.sequencer_addr;
                pub_key = r.sequencer_pub_key;
                voting_power = pos 1;
                proposer_priority = pos 0;
              }
              ∷ [])
            (sym same),
      )
