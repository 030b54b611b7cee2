-- ===== src/Rpc/Chunks/Join.antt =====
-- pkg/rpc/core/net.go: the chunks joined, and the chunks that are answered.
use go_execution_abci.Prelude.{
  ℕ, zero, suc, ◌+◌, ◌-◌, ◌≤◌, ◌<◌, ◌≡◌, refl, sym, ap, ◌∙◌, String, ltb, if◌then◌else◌, Bool-cases,
  inl, inr, length, get_elem?, take, drop, min, length-drop, take-min, take-append-drop, none, some,
  List, [], ◌∷◌, ◌++◌, arith,
}
use go_execution_abci.Prelude.Int.{to_i64, u64_mod, i64_bound}
use go_execution_abci.Prelude.Exec.{ok, err, panic}
use go_execution_abci.Compat.Types.{Bytes}
use go_execution_abci.Rpc.Chunks.{
  out_of_bounds, genesis_chunk_size, chunk_loop, genesis_chunks, chunk_at,
}

abbrev pub join : (String → Bytes) → List String → Bytes
join decode [] = []
join decode (c ∷ cs) = decode c ++ join decode cs

drop-drop : (a b : ℕ) (xs : Bytes) → drop a (drop b xs) ≡ drop (b + a) xs
drop-drop a zero xs = ap (λ n. drop n xs) {x = a} {y = 0 + a} (omega arith)
drop-drop a (suc b) [] = drop_nil a ∙ sym (drop_nil (suc b + a))
  where
    drop_nil : (n : ℕ) → drop {A = ℕ} n [] ≡ []
    drop_nil zero = refl
    drop_nil (suc n) = refl
drop-drop a (suc b) (x ∷ xs) =
    drop-drop a b xs ∙ ap (λ n. drop n (x ∷ xs)) {x = suc (b + a)} {y = suc b + a} (omega arith)

drop-length : (n : ℕ) (xs : Bytes) → length xs ≤ n → drop n xs ≡ []
drop-length zero [] h = refl
drop-length zero (x ∷ xs) h = absurd (omega arith)
drop-length (suc n) [] h = refl
drop-length (suc n) (x ∷ xs) h = drop-length n xs (omega arith)

-- A chunk and what is behind it.
whole :
    (c i : ℕ) (xs : Bytes)
    → take (min (i + c) (length xs) - i) (drop i xs) ++ drop c (drop i xs) ≡ drop i xs
whole c i xs =
    ap (λ n. take n (drop i xs) ++ drop c (drop i xs)) {x = min (i + c) (length xs) - i}
      {y = min c (length (drop i xs))} (omega (arith, length-drop i xs))
    ∙ ap (λ r. r ++ drop c (drop i xs)) (take-min c (drop i xs))
    ∙ take-append-drop c (drop i xs)

module _ (encode : Bytes → String) (decode : String → Bytes)
    (decodes : (bytes : Bytes) → decode (encode bytes) ≡ bytes) where
  join-chunk_loop :
      (fuel i : ℕ) (bytes : Bytes)
      → length bytes ≤ fuel + i
      → join decode (chunk_loop encode fuel i bytes) ≡ drop i bytes
  unfolding chunk_loop
  join-chunk_loop zero i bytes enough = sym (drop-length i bytes (omega arith))
  join-chunk_loop (suc fuel) i bytes enough = elim (Bool-cases (ltb i (length bytes))) [
    | inr done ↦ rw done (sym (drop-length i bytes (ground arith)))
    | inl more ↦
        rw (more, decodes (take (min (i + genesis_chunk_size) (length bytes) - i) (drop i bytes)))
          (ap (λ r. take (min (i + genesis_chunk_size) (length bytes) - i) (drop i bytes) ++ r)
              (join-chunk_loop fuel (i + genesis_chunk_size) bytes (omega arith)
                ∙ sym (drop-drop genesis_chunk_size i bytes))
            ∙ whole genesis_chunk_size i bytes)
  ]

  -- With a base64 that decodes what it encoded: the chunks of a document, decoded and joined, are the
  -- document, in its order; for any document, the empty one included, the loop ends with all of it.
  pub genesis_chunks-join :
      (bytes : Bytes)
      → (chunks : List String) × (genesis_chunks encode (ok (some bytes)) ≡ ok chunks)
        × (join decode chunks ≡ bytes)
  unfolding genesis_chunks
  genesis_chunks-join bytes = (
    chunk_loop encode (length bytes) 0 bytes,
    refl,
    join-chunk_loop (length bytes) 0 bytes (omega arith),
  )

get_elem?-none : (cs : List String) (i : ℕ) → length cs ≤ i → get_elem? cs i ≡ none
get_elem?-none [] i h = refl
get_elem?-none (c ∷ cs) zero h = absurd (omega arith)
get_elem?-none (c ∷ cs) (suc i) h = get_elem?-none cs i (omega arith)

-- If a document has chunks, but not more than an int64 counts, an index is refused, with an error, if it
-- is at least their number and below 2^63; but an index from 2^63 on, which is a negative int, passes the
-- check and panics.
pub chunk_at_bounds :
    (chunks : List String) (chunk : ℕ)
    → 0 < length chunks
    → length chunks < i64_bound
    → chunk < u64_mod
    → length chunks ≤ chunk
    → chunk_at chunk chunks ≡ (if ltb chunk i64_bound then err out_of_bounds else panic)
unfolding chunk_at to_i64
chunk_at_bounds [] chunk some_chunks fits small beyond = absurd (omega arith)
chunk_at_bounds (c ∷ cs) chunk some_chunks fits small beyond =
    rw (get_elem?-none (c ∷ cs) chunk beyond) (ground arith)
