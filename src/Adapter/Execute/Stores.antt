-- ===== src/Adapter/Execute/Stores.antt =====
-- pkg/adapter/adapter.go: what the steps of ExecuteTxs leave in the store.
use go_execution_abci.Prelude.{ℕ, ◌≡◌, refl, ap, ◌∙◌, Bool, true, false, if◌then◌else◌, List, []}
use go_execution_abci.Prelude.Int.{to_i64}
use go_execution_abci.Prelude.Exec.{ok, or_err, continue-eq-ok, returned}
use go_execution_abci.Compat.Types.{Bytes, Header, BlockId, Commit, CometHeader, Block}
use go_execution_abci.Adapter.Types.{part_set, Validator, CometState, FinalizeResponse, Adapter}
use go_execution_abci.Adapter.Store.RoundTrip.{IsStore}
use go_execution_abci.Adapter.Env.{Env}
use go_execution_abci.Adapter.Events.{stack_block_commit_events, fire_events, on_bus}
use go_execution_abci.Adapter.Execute.Cleared.{commit_block-Keeps}
use go_execution_abci.Adapter.Execute.{
  proposer_address, publish_block, queue_block, record_block, commit_block, seal_block,
}

module _ {D A M : Type 0} (env : Env D A M) where
  publish_block_stores :
      (block_height : ℕ) (response : FinalizeResponse) (block : Block) (block_id : BlockId)
      (changes : List Validator) (a a' : Adapter D A M)
      → publish_block env block_height response block block_id changes a ≡ (ok tt, a')
      → env.store.save_block_response block_height response a.db ≡ (ok tt, a'.db)
  unfolding publish_block
  publish_block_stores block_height response block block_id changes a a' h =
      let (u, saved, h1) =
        continue-eq-ok (env.store.save_block_response block_height response a.db).0
          (record a { db = (env.store.save_block_response block_height response a.db).1 })
          (λ _. on_bus (fire_events env.bus_accepts block block_id response changes)) h in
      returned saved (ap (λ r. r.1.db) h1)

  queue_block_stores :
      (block_height p : ℕ) (response : FinalizeResponse) (block : Block) (block_id : BlockId)
      (changes : List Validator) (a a' : Adapter D A M)
      → queue_block env block_height p response block block_id changes a ≡ (ok tt, a')
      → env.store.save_block_response block_height (record response { events = [] }) a.db
        ≡ (ok tt, a'.db)
  unfolding queue_block stack_block_commit_events
  queue_block_stores block_height p response block block_id changes a a' h =
      ap (λ r. (r.0, r.1.db)) h

  -- What of a response is stored at once.
  abbrev pub stored_response : ℕ → FinalizeResponse → FinalizeResponse
  stored_response header_height response =
      if env.is_publishable (to_i64 header_height)
      then response
      else record response { events = [] }

  pub record_block_stores :
      (header_height block_height p : ℕ) (response : FinalizeResponse) (block : Block)
      (block_id : BlockId) (changes : List Validator) (a a' : Adapter D A M)
      → record_block env header_height block_height p response block block_id changes a
        ≡ (ok tt, a')
      → env.store.save_block_response block_height (stored_response header_height response) a.db
        ≡ (ok tt, a'.db)
  unfolding record_block
  record_block_stores header_height block_height p response block block_id changes a a' h =
      either (env.is_publishable (to_i64 header_height)) h
    where
      either :
          (b : Bool)
          → (if b
                then publish_block env block_height response block block_id changes
                else queue_block env block_height p response block block_id changes)
              a
            ≡ (ok tt, a')
          → env.store.save_block_response block_height
              (if b then response else record response { events = [] })
              a.db
            ≡ (ok tt, a'.db)
      either true k = publish_block_stores block_height response block block_id changes a a' k
      either false k = queue_block_stores block_height p response block block_id changes a a' k

  pub commit_block_stores :
      (txs : List Bytes) (block_height : ℕ) (response : FinalizeResponse) (state : CometState)
      (a : Adapter D A M)
      → (commit_block env txs block_height response state a).1.db ≡ a.db
  unfolding commit_block
  commit_block_stores txs block_height response state a =
      (commit_block-Keeps env (λ s. s.db ≡ a.db) txs block_height response state (λ _ _ h. h)
          (λ _ _ h. h)).keeps
        a refl

  pub seal_block_lem :
      (lawful : IsStore env.store) (s : CometState) (header' : Header) (abci_header : CometHeader)
      (last_commit : Commit) (txs : List Bytes) (block_height : ℕ) (response : FinalizeResponse)
      (p : ℕ) (changes : List Validator) (a a' : Adapter D A M)
      → seal_block env s header' abci_header last_commit txs block_height response p changes a
        ≡ (ok tt, a')
      → (id : BlockId) × (id.hash ≡ env.comet.header_hash abci_header)
        × (env.store.get_block_id block_height a'.db ≡ ok id)
        × (env.store.get_block_response block_height a'.db
            ≡ ok (stored_response header'.height response))
        × (env.store.load_state a'.db ≡ env.store.load_state a.db)
  unfolding seal_block
  seal_block_lem lawful s header' abci_header last_commit txs block_height response p changes a a'
        h =
      let (proposer, is_proposer, h1) = continue-eq-ok (proposer_address s.validators) a _ h in
      let block : Block = env.make_block s (to_i64 block_height) txs last_commit proposer in
      let (parts, are_parts, h2) =
        continue-eq-ok (or_err (env.comet.make_part_set block) part_set) a _ h1 in
      let block_id : BlockId = record {
        hash = env.comet.header_hash abci_header;
        part_set_header = parts;
      } in
      let d : D = (env.store.save_block_id block_height block_id a.db).1 in
      let (u, saved, h3) =
        continue-eq-ok (env.store.save_block_id block_height block_id a.db).0 (record a { db = d })
          _ h2 in
      let save : env.store.save_block_id block_height block_id a.db ≡ (ok tt, d) =
        returned saved refl in
      let recorded =
        record_block_stores header'.height block_height p response block block_id changes
          (record a { db = d }) a' h3 in
      let kept =
        lawful.save_block_response-frame d a'.db block_height
          (stored_response header'.height response) block_height recorded in
      let first = lawful.save_block_id-frame a.db d block_height block_id block_height save in
      (
        block_id,
        refl,
        kept.1 ∙ lawful.get-save_block_id a.db d block_height block_id save,
        lawful.get-save_block_response d a'.db block_height
            (stored_response header'.height response) recorded,
        kept.0 ∙ first.0,
      )
