-- ===== src/Compat/Types.antt =====
-- The structures of CometBFT and of Rollkit that the code fills and reads, with the fields it names, and
-- what the code calls of these packages.
use go_execution_abci.Prelude.{ℕ, String, Bool, Option, List}
use go_execution_abci.Prelude.Int.{ℤ}

abbrev pub Bytes : Type 0
Bytes = List ℕ

-- rlktypes.Header. Its height and its time are numbers.
pub record Header : Type 0 where
  pub app_version : ℕ
  pub height : ℕ
  pub time : ℕ
  pub data_hash : Bytes
  pub consensus_hash : Bytes
  pub app_hash : Bytes
  pub last_results_hash : Bytes
  pub proposer_address : Bytes
  pub validator_hash : Bytes
  pub chain_id : String

pub record SignedHeader : Type 0 where
  pub header : Header
  pub signature : Bytes

pub record PartSetHeader : Type 0 where
  pub total : ℕ
  pub hash : Bytes

pub record BlockId : Type 0 where
  pub hash : Bytes
  pub part_set_header : PartSetHeader

pub data BlockIdFlag : Type 0 where
  absent commit nil_vote : BlockIdFlag

pub record CommitSig : Type 0 where
  pub block_id_flag : BlockIdFlag
  pub validator_address : Bytes
  pub timestamp : ℕ
  pub signature : Bytes

pub record Commit : Type 0 where
  pub height : ℤ
  pub round : ℤ
  pub block_id : BlockId
  pub signatures : List CommitSig

-- cmttypes.Header.
pub record CometHeader : Type 0 where
  pub block_version : ℕ
  pub app_version : ℕ
  pub chain_id : String
  pub height : ℤ
  pub time : ℕ
  pub last_block_id : BlockId
  pub last_commit_hash : Bytes
  pub data_hash : Bytes
  pub validators_hash : Bytes
  pub next_validators_hash : Bytes
  pub consensus_hash : Bytes
  pub app_hash : Bytes
  pub last_results_hash : Bytes
  pub evidence_hash : Bytes
  pub proposer_address : Bytes

-- The pieces of evidence stand as bytes.
pub record Block : Type 0 where
  pub header : CometHeader
  pub txs : List Bytes
  pub evidence : List Bytes
  pub last_commit : Commit

pub record BlockMeta : Type 0 where
  pub block_id : BlockId
  pub block_size : ℤ
  pub header : CometHeader
  pub num_txs : ℕ

-- cmtproto.Vote, of the type PrecommitType.
pub record Vote : Type 0 where
  pub height : ℤ
  pub round : ℤ
  pub block_id : Option BlockId
  pub timestamp : ℕ
  pub validator_address : Bytes
  pub validator_index : ℕ

-- What the packages of CometBFT compute.
pub record Comet : Type 0 where
  pub block_protocol : ℕ
  pub empty_block_id : BlockId
  pub commit_hash : Commit → Bytes
  pub header_hash : CometHeader → Bytes
  pub evidence_hash : Bytes
  pub make_part_set : Block → Option PartSetHeader
  pub block_size : Block → ℤ
  pub vote_sign_bytes : String → Vote → Bytes

-- A public key of libp2p, and what the validator hash takes of CometBFT: the address of an Ed25519 key,
-- and the hash of the validator set of one key with a voting power.
pub record PubKey : Type 0 where
  pub is_ed25519 : Bool
  pub raw : Option Bytes

pub record Hasher : Type 0 where
  pub address : Bytes → Bytes
  pub set_hash : Bytes → ℕ → Bytes
