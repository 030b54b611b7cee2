-- ===== src/Adapter/Commit/Signed.antt =====
-- pkg/adapter/adapter.go and pkg/cometcompat/signer.go: the commit that is made from a header, and the
-- vote that was signed for it.
use go_execution_abci.Prelude.{ℕ, ◌+◌, ◌-◌, ◌≡◌, ◌<◌, refl, some, [], ◌∷◌, arith, lt→ltb}
use go_execution_abci.Prelude.Exec.{Outcome, ok}
use go_execution_abci.Compat.{signature_payload, vote_of}
use go_execution_abci.Compat.Types.{
  SignedHeader, BlockId, BlockIdFlag, Commit, CommitSig, Vote, Comet,
}
use go_execution_abci.Adapter.Types.{Error}
use go_execution_abci.Adapter.Commit.{commit_of, get_last_commit}

-- The vote that a validator of a commit has signed, by the fields of the commit and of its signature.
abbrev pub signed_vote : Commit → CommitSig → Vote
signed_vote commit sig = record {
  height = commit.height;
  round = commit.round;
  block_id = some commit.block_id;
  timestamp = sig.timestamp;
  validator_address = sig.validator_address;
  validator_index = 0;
}

-- For a stored header and block id of a height from 1 on, the last commit at the next height is the
-- commit of that header by its proposer alone, with the signature of the header, and the vote that this
-- commit stands for is the one whose bytes the proposer was given to sign.
pub get_last_commit-signature_payload :
    (comet : Comet) (get_header : ℕ → Outcome Error SignedHeader)
    (get_block_id : ℕ → Outcome Error BlockId) (height : ℕ) (signed : SignedHeader) (id : BlockId)
    → 0 < height
    → get_header height ≡ ok signed
    → get_block_id height ≡ ok id
    → (commit : Commit) × (sig : CommitSig) × (get_last_commit comet get_header get_block_id
          (height + 1)
        ≡ ok commit)
      × (commit.signatures ≡ sig ∷ [])
      × (sig.signature ≡ signed.signature)
      × (commit.block_id ≡ id)
      × (signature_payload comet (ok id) signed.header
          ≡ ok (comet.vote_sign_bytes signed.header.chain_id (signed_vote commit sig)))
unfolding get_last_commit commit_of signature_payload vote_of
get_last_commit-signature_payload comet get_header get_block_id height signed id positive got_header
      got_id =
    (
      commit_of signed id,
      record {
        block_id_flag = BlockIdFlag.commit;
        validator_address = signed.header.proposer_address;
        timestamp = signed.header.time;
        signature = signed.signature;
      },
      rw (lt→ltb 1 (height + 1) (omega arith), previous height, got_header, got_id) refl,
      refl,
      refl,
      refl,
      refl,
    )
  where
    previous : (n : ℕ) → n + 1 - 1 ≡ n
    previous n = omega arith
