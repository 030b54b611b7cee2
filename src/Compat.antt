-- ===== src/Compat.antt =====
-- pkg/cometcompat: headers, blocks and votes in the form of CometBFT.
pub mod Types
use go_execution_abci.Prelude.{
  ℕ, ◌-◌, Bool, true, false, ◌&&◌, ltb, ◌==◌, nat_eq, if◌then◌else◌, length, take, replicate,
  Option, none, some, List, [], ◌∷◌, ◌++◌,
}
use go_execution_abci.Prelude.Int.{ℤ, pos, to_i64}
use go_execution_abci.Prelude.Exec.{Outcome, ok, err, panic, then_ok, or_err}
use go_execution_abci.Compat.Types.{
  Bytes, Header, BlockId, Commit, CometHeader, Block, BlockMeta, Vote, Comet, PubKey, Hasher,
}

pub data CompatError : Type 0 where
  no_proposer part_set no_block_id wrong_key key_bytes key_size address_mismatch : CompatError

-- A test of two byte slices.
abbrev pub bytes_beq : Bytes → Bytes → Bool
bytes_beq [] [] = true
bytes_beq [] (b ∷ bs) = false
bytes_beq (a ∷ rest) [] = false
bytes_beq (a ∷ rest) (b ∷ bs) = a == b && bytes_beq rest bs

module _ (comet : Comet) where
  unfoldable pub to_abci_header : Header → Commit → Outcome CompatError CometHeader
  unfolding to_i64
  to_abci_header header last_commit =
      if length header.proposer_address == 0
      then err no_proposer
      else ok record {
        block_version = comet.block_protocol;
        app_version = header.app_version;
        chain_id = header.chain_id;
        height = to_i64 header.height;
        time = header.time;
        last_block_id = last_commit.block_id;
        last_commit_hash = comet.commit_hash last_commit;
        data_hash = header.data_hash;
        validators_hash = header.validator_hash;
        next_validators_hash = header.validator_hash;
        consensus_hash = header.consensus_hash;
        app_hash = header.app_hash;
        last_results_hash = header.last_results_hash;
        evidence_hash = comet.evidence_hash;
        proposer_address = header.proposer_address;
      }

  -- It always succeeds.
  unfoldable pub to_abci_block : CometHeader → Commit → List Bytes → Block
  to_abci_block header last_commit txs = record {
    header = header;
    txs = txs;
    evidence = [];
    last_commit = last_commit;
  }

  unfoldable pub to_abci_block_meta : Block → Outcome CompatError BlockMeta
  to_abci_block_meta block = then_ok (or_err (comet.make_part_set block) part_set) λ parts.
      ok record {
        block_id = record { hash = comet.header_hash block.header; part_set_header = parts };
        block_size = comet.block_size block;
        header = block.header;
        num_txs = length block.txs;
      }

  -- The vote that the signature of a block signs: a precommit of its proposer.
  unfoldable pub vote_of : Option BlockId → Header → Vote
  unfolding to_i64
  vote_of block_id header = record {
    height = to_i64 header.height;
    round = pos 0;
    block_id = block_id;
    timestamp = header.time;
    validator_address = header.proposer_address;
    validator_index = 0;
  }

  -- The first argument is the store's answer for the height of the header. The first block has no id yet.
  unfoldable pub signature_payload :
      Outcome CompatError BlockId → Header → Outcome CompatError Bytes
  unfolding vote_of
  signature_payload (ok block_id) header =
      ok (comet.vote_sign_bytes header.chain_id (vote_of (some block_id) header))
  signature_payload panic header = panic
  signature_payload (err e) header =
      if ltb 1 header.height
      then err e
      else ok (comet.vote_sign_bytes header.chain_id (vote_of none header))

abbrev pub pub_key_size : ℕ
pub_key_size = 32

abbrev pub sha256_size : ℕ
sha256_size = 32

module _ (hasher : Hasher) where
  -- The sum copied into a hash of its size.
  abbrev copied : Bytes → Bytes
  copied sum = take sha256_size sum ++ replicate (sha256_size - length sum) 0

  unfoldable pub validator_hash_of : Bytes → Bytes → Outcome CompatError Bytes
  validator_hash_of proposer_address raw_key =
      if length raw_key == pub_key_size
      then if bytes_beq (hasher.address raw_key) proposer_address
        then ok (copied (hasher.set_hash raw_key 1))
        else err address_mismatch
      else err key_size

  unfoldable pub validator_hash : Bytes → PubKey → Outcome CompatError Bytes
  unfolding validator_hash_of
  validator_hash proposer_address key =
      if key.is_ed25519
      then then_ok (or_err key.raw key_bytes) (validator_hash_of proposer_address)
      else err wrong_key
