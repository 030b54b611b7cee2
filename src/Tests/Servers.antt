-- ===== src/Tests/Servers.antt =====
-- A chain of three heights, of which the second has no block, and a block that is migrated.
use go_execution_abci.Prelude.{
  ℕ, suc, ◌≡◌, refl, true, Option, none, some, [], ◌∷◌, arith, ◌==◌, nat_eq, if◌then◌else◌,
}
use go_execution_abci.Prelude.Int.{pos}
use go_execution_abci.Prelude.Exec.{ok}
use go_execution_abci.Compat.{to_abci_header}
use go_execution_abci.Compat.Types.{Block}
use go_execution_abci.Server.Migration.{RollkitStores, migrate_blocks, comet_block_to_rollkit}
use go_execution_abci.Server.Migration.Blocks.{present, migrate_all, migrate_blocks_lem}
use go_execution_abci.Server.Migration.Headers.{IsPlain, comet_block_to_rollkit-to_abci_header}
use go_execution_abci.Tests.Chains.{comet, no_parts}

abbrev pub the_block : Block
the_block = record {
  header = record {
    block_version = 11;
    app_version = 1;
    chain_id = "chain";
    height = pos 3;
    time = 1000;
    last_block_id = no_parts;
    last_commit_hash = 1 ∷ [];
    data_hash = [];
    validators_hash = 6 ∷ [];
    next_validators_hash = 6 ∷ [];
    consensus_hash = [];
    app_hash = [];
    last_results_hash = [];
    evidence_hash = [];
    proposer_address = 7 ∷ [];
  };
  txs = (1 ∷ []) ∷ [];
  evidence = [];
  last_commit = record { height = pos 2; round = pos 0; block_id = no_parts; signatures = [] };
}

the_block-IsPlain : IsPlain comet the_block
the_block-IsPlain = record {
  current = refl;
  same_validators = refl;
  no_evidence = refl;
  last_id = refl;
  last_hash = refl;
  proposed = omega arith;
  number = 3;
  at_number = refl;
  fits = omega arith;
}

comet_block_to_rollkit-to_abci_header_example :
    (to_abci_header comet (comet_block_to_rollkit comet the_block).0.header the_block.last_commit
      ≡ ok the_block.header)
    × ((comet_block_to_rollkit comet the_block).1.txs ≡ (1 ∷ []) ∷ [])
comet_block_to_rollkit-to_abci_header_example =
    comet_block_to_rollkit-to_abci_header comet the_block the_block-IsPlain

abbrev blocks : ℕ → Option Block
blocks n = if n == 2 then none else some the_block

-- Stores that count the calls.
abbrev counting : RollkitStores ℕ
counting = record {
  save_block_data = λ header data' n. (ok tt, suc n);
  init_header_sync = λ header n. (ok tt, suc n);
  init_data_sync = λ data' n. (ok tt, suc n);
  set_height = λ height n. (ok tt, suc n);
}

migrate_blocks_lem_example :
    migrate_blocks comet counting blocks 3 0 true 0
    ≡ migrate_all comet counting blocks true (present blocks 3) 0
migrate_blocks_lem_example = migrate_blocks_lem comet counting blocks 3 (omega arith) 0
