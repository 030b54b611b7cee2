-- ===== src/Rpc/Chunks.antt =====
-- pkg/rpc/core/net.go: the genesis document in chunks.
pub mod Join
use go_execution_abci.Prelude.{
  ℕ, zero, suc, ◌+◌, ◌-◌, String, ltb, if◌then◌else◌, length, get_elem?, take, drop, min, Option,
  none, some, List, [], ◌∷◌,
}
use go_execution_abci.Prelude.Int.{ℤ, pos, leb_ℤ, to_i64}
use go_execution_abci.Prelude.Exec.{Outcome, ok, err, panic, then_ok, or_err}
use go_execution_abci.Compat.Types.{Bytes}

pub data GenesisError : Type 0 where
  not_initialized genesis_doc marshal no_chunks out_of_bounds : GenesisError

abbrev pub genesis_chunk_size : ℕ
genesis_chunk_size = 16777216

-- The loop from index i on; a round of fuel for each byte is enough.
unfoldable pub chunk_loop : (Bytes → String) → ℕ → ℕ → Bytes → List String
chunk_loop encode zero i data' = []
chunk_loop encode (suc fuel) i data' =
    let rest = chunk_loop encode fuel (i + genesis_chunk_size) data' in
    if ltb i (length data')
    then encode (take (min (i + genesis_chunk_size) (length data') - i) (drop i data')) ∷ rest
    else []

-- The encoded document, of which there may be none, is that of encoding/json; `encode` that of
-- encoding/base64.
unfoldable pub genesis_chunks :
    (Bytes → String) → Outcome GenesisError (Option Bytes) → Outcome GenesisError (List String)
unfolding chunk_loop
genesis_chunks encode document = then_ok document λ found. elim found [
  | none ↦ ok []
  | some bytes ↦ ok (chunk_loop encode (length bytes) 0 bytes)
]

pub record ChunkResult : Type 0 where
  pub total_chunks : ℕ
  pub chunk_number : ℤ
  pub chunk : String

-- The index is a uint and is compared as an int.
unfoldable pub chunk_at : ℕ → List String → Outcome GenesisError ChunkResult
unfolding to_i64
chunk_at chunk [] = err no_chunks
chunk_at chunk (c ∷ cs) =
    if leb_ℤ (pos (length (c ∷ cs))) (to_i64 chunk)
    then err out_of_bounds
    else elim (get_elem? (c ∷ cs) chunk) [
      | none ↦ panic
      | some text ↦
          ok record { total_chunks = length (c ∷ cs); chunk_number = to_i64 chunk; chunk = text }
    ]

unfoldable pub genesis_chunked :
    (Bytes → String) → Outcome GenesisError (Option Bytes) → ℕ → Outcome GenesisError ChunkResult
unfolding genesis_chunks chunk_at
genesis_chunked encode document chunk =
    then_ok (genesis_chunks encode document) λ chunks. chunk_at chunk chunks
