-- ===== src/Adapter/Commit.antt =====
-- pkg/adapter/adapter.go: the last commit, and its form for the application.
pub mod Signed
use go_execution_abci.Prelude.{ℕ, ◌-◌, ltb, if◌then◌else◌, length, Option, List, [], ◌∷◌, map}
use go_execution_abci.Prelude.Int.{ℤ, pos, to_i64}
use go_execution_abci.Prelude.Exec.{Outcome, ok, then_ok}
use go_execution_abci.Compat.Types.{
  Bytes, Header, SignedHeader, BlockId, BlockIdFlag, Commit, CommitSig, Comet,
}
use go_execution_abci.Adapter.Types.{Error}

-- abci.VoteInfo and abci.CommitInfo.
pub record VoteInfo : Type 0 where
  pub address : Bytes
  pub power : ℤ
  pub block_id_flag : BlockIdFlag

pub record CommitInfo : Type 0 where
  pub round : ℤ
  pub votes : List VoteInfo

-- The commit of a header with the signature of its proposer alone.
unfoldable pub commit_of : SignedHeader → BlockId → Commit
unfolding to_i64
commit_of signed block_id = record {
  height = to_i64 signed.header.height;
  round = pos 0;
  block_id = block_id;
  signatures =
      record {
        block_id_flag = BlockIdFlag.commit;
        validator_address = signed.header.proposer_address;
        timestamp = signed.header.time;
        signature = signed.signature;
      }
      ∷ [];
}

unfoldable pub empty_commit : Comet → Commit
empty_commit comet = record {
  height = pos 0;
  round = pos 0;
  block_id = comet.empty_block_id;
  signatures = [];
}

-- `get_header` is that of Rollkit's store, `get_block_id` that of pkg/store.
unfoldable pub get_last_commit :
    Comet
    → (ℕ → Outcome Error SignedHeader)
    → (ℕ → Outcome Error BlockId)
    → ℕ
    → Outcome Error Commit
unfolding commit_of empty_commit
get_last_commit comet get_header get_block_id block_height =
    if ltb 1 block_height
    then then_ok (get_header (block_height - 1)) (λ signed.
      then_ok (get_block_id (block_height - 1)) λ block_id. ok (commit_of signed block_id))
    else ok (empty_commit comet)

unfoldable pub vote_info : CommitSig → VoteInfo
vote_info sig = record {
  address = sig.validator_address;
  power = pos 1;
  block_id_flag = sig.block_id_flag;
}

unfoldable pub commit_info : Commit → CommitInfo
unfolding vote_info
commit_info commit = record { round = commit.round; votes = map vote_info commit.signatures }
