-- ===== src/Server/Migration/Headers.antt =====
-- server/migration_cmd.go and pkg/cometcompat/convert.go: a block that was migrated, converted back.
use go_execution_abci.Prelude.{ℕ, ◌≡◌, ◌<◌, refl, false, ◌==◌, nat_eq, length, arith}
use go_execution_abci.Prelude.Int.{ℤ, pos, to_i64, to_u64, i64_bound}
use go_execution_abci.Prelude.Exec.{ok}
use go_execution_abci.Compat.{to_abci_header}
use go_execution_abci.Compat.Types.{Block, Comet}
use go_execution_abci.Server.Migration.{comet_block_to_rollkit, migrated_header, migrated_data}

-- A block of CometBFT of the current protocol, without evidence, whose validators stay and whose header
-- commits to its last commit.
pub record IsPlain (comet : Comet) (block : Block) : Type 0 where
  pub current : block.header.block_version ≡ comet.block_protocol
  pub same_validators : block.header.next_validators_hash ≡ block.header.validators_hash
  pub no_evidence : block.header.evidence_hash ≡ comet.evidence_hash
  pub last_id : block.header.last_block_id ≡ block.last_commit.block_id
  pub last_hash : block.header.last_commit_hash ≡ comet.commit_hash block.last_commit
  pub proposed : 0 < length block.header.proposer_address
  pub number : ℕ
  pub at_number : block.header.height ≡ pos number
  pub fits : number < i64_bound

-- A block of CometBFT of the current protocol, without evidence, whose validators stay, whose header
-- commits to its last commit and whose height fits an int64 comes back from its migration: ToABCIHeader
-- gives the header of the block again from the migrated header and the last commit, and the transactions
-- are those of the block.
pub comet_block_to_rollkit-to_abci_header :
    (comet : Comet) (block : Block)
    → IsPlain comet block
    → (to_abci_header comet (comet_block_to_rollkit comet block).0.header block.last_commit
        ≡ ok block.header)
      × ((comet_block_to_rollkit comet block).1.txs ≡ block.txs)
unfolding comet_block_to_rollkit migrated_header migrated_data to_abci_header
comet_block_to_rollkit-to_abci_header comet block plain = (
  rw
      (
        some_proposer (length block.header.proposer_address) plain.proposed,
        ← plain.current,
        ← plain.no_evidence,
        ← plain.last_hash,
        ← plain.last_id,
        back block.header.height plain.number plain.at_number plain.fits,
        plain.same_validators,
      )
      refl,
  refl,
)
  where
    some_proposer : (n : ℕ) → 0 < n → (n == 0) ≡ false
    some_proposer n h = ground arith

    back : (z : ℤ) (n : ℕ) → z ≡ pos n → n < i64_bound → to_i64 (to_u64 z) ≡ z
    back z n h k = unfold to_i64 to_u64 in ground arith
