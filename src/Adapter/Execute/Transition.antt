-- ===== src/Adapter/Execute/Transition.antt =====
-- pkg/adapter/adapter.go: what ExecuteTxs leaves in the store.
use go_execution_abci.Prelude.{
  ℕ, ◌<◌, ◌≡◌, refl, arith, true, sym, ap, subst, ◌∙◌, leb, length, Option, some, List, [], ◌∷◌,
  ◌++◌,
}
use go_execution_abci.Prelude.Int.{ℤ, to_i64, to_u64, i64_bound}
use go_execution_abci.Prelude.Exec.{
  ok, then_ok-eq-ok, or_err, or_err-eq-ok, ensure, ensure-eq-ok, continue-eq-ok, ok_inj, returned,
  ◌>>=◌, ◌>>◌, guard,
}
use go_execution_abci.Compat.{to_abci_header}
use go_execution_abci.Compat.Types.{Bytes, Header, BlockId, Commit, CometHeader}
use go_execution_abci.Adapter.Types.{
  updates, no_header, rejected, Validator, ValidatorSet, CometState, FinalizeResponse, Adapter,
}
use go_execution_abci.Adapter.Store.RoundTrip.{IsStore}
use go_execution_abci.Adapter.Commit.{get_last_commit}
use go_execution_abci.Adapter.Env.{BlockRequest, Env}
use go_execution_abci.Adapter.Execute.{
  on_app, ensure_index, block_request, changed_validators, changed_params, next_state,
  proposer_address, header_or_err, commit_block, seal_block, finish_block, apply_response,
  execute_txs,
}
use go_execution_abci.Adapter.Execute.Stores.{stored_response, commit_block_stores, seal_block_lem}

module _ {D A M : Type 0} (env : Env D A M) where
  unchanged_validators :
      (s s' : CometState) (changes : List Validator) (block_height : ℕ) (changed : ValidatorSet × ℤ)
      (set : ValidatorSet)
      → changes ≡ []
      → changed_validators env s changes block_height ≡ ok changed
      → env.increment_proposer_priority changed.0 ≡ ok set
      → set ≡ s'.validators
      → env.increment_proposer_priority s.next_validators ≡ ok s'.validators
  unfolding changed_validators
  unchanged_validators s s' [] block_height changed set none' h k e =
      ap env.increment_proposer_priority (ap (λ r. r.0) (ok_inj h)) ∙ k ∙ ap ok e
  unchanged_validators s s' (v ∷ vs) block_height changed set none' h k e = cc

  -- The fields of the next state that do not depend on the updates.
  pub next_state_lem :
      (s s' : CometState) (response : FinalizeResponse) (block_height : ℕ)
      (changes : List Validator)
      → next_state env s response block_height ≡ ok (s', changes)
      → (s'.last_block_height ≡ to_i64 block_height)
        × (s'.app_hash ≡ response.app_hash)
        × (s'.last_validators ≡ s.validators)
        × (s'.chain_id ≡ s.chain_id)
        × (env.increment_proposer_priority s'.validators ≡ ok s'.next_validators)
        × (changes ≡ [] → env.increment_proposer_priority s.next_validators ≡ ok s'.validators)
  unfolding next_state changed_validators
  next_state_lem s s' response block_height changes h =
      let (changes', converted, h1) =
        then_ok-eq-ok (or_err (env.validator_updates response.validator_updates) updates) _ h in
      let (changed, is_changed, h2) =
        then_ok-eq-ok (changed_validators env s changes' block_height) _ h1 in
      let (set, incremented, h3) =
        then_ok-eq-ok (env.increment_proposer_priority (changed.0)) _ h2 in
      let (new_params, is_params, h4) =
        then_ok-eq-ok (changed_params env s response.consensus_param_updates block_height) _ h3 in
      let (next, incremented', h5) = then_ok-eq-ok (env.increment_proposer_priority set) _ h4 in
      let same = ok_inj h5 in
      let same_changes : changes' ≡ changes = ap (λ r. r.1) same in
      (
        sym (ap (λ r. r.0.last_block_height) same),
        sym (ap (λ r. r.0.app_hash) same),
        sym (ap (λ r. r.0.last_validators) same),
        sym (ap (λ r. r.0.chain_id) same),
        subst
            (λ (r : CometState × List Validator).
              env.increment_proposer_priority r.0.validators ≡ ok r.0.next_validators)
            same incremented',
        λ none'.
            unchanged_validators s s' changes' block_height changed set (same_changes ∙ none')
              is_changed incremented (ap (λ r. r.0.validators) same),
      )

  -- The state of a block of a height from 1 on is loaded as it was saved.
  pub load-save_positive :
      (lawful : IsStore env.store) (d d' : D) (next : CometState) (block_height : ℕ)
      → env.store.save_state next d ≡ (ok tt, d')
      → next.last_block_height ≡ to_i64 block_height
      → 0 < block_height
      → block_height < i64_bound
      → env.store.load_state d' ≡ ok next
  unfolding to_i64
  load-save_positive lawful d d' next block_height saved at_height positive fits =
      let (t, found, loaded) = lawful.load-save_state d d' next saved in
      found ∙ ap ok (loaded.whole (rw at_height (ground arith)))

  -- What a store holds after a block: the next state, with the block's id and response.
  pub record Holds (s : CometState) (header' : Header) (block_height : ℕ)
      (response : FinalizeResponse) (d : D) : Type 0 where
    pub next : CometState
    pub changes : List Validator
    pub id : BlockId
    pub is_next : next_state env s response block_height ≡ ok (next, changes)
    pub holds_state : env.store.load_state d ≡ ok next
    pub holds_id : env.store.get_block_id block_height d ≡ ok id
    pub holds_response :
        env.store.get_block_response block_height d
        ≡ ok (stored_response env header'.height response)

  finish_block_lem :
      (lawful : IsStore env.store) (s : CometState) (header' : Header) (abci_header : CometHeader)
      (last_commit : Commit) (txs : List Bytes) (block_height : ℕ) (response : FinalizeResponse)
      (p : ℕ) (a a' : Adapter D A M) (root : Bytes) (max_bytes : ℕ)
      → 0 < block_height
      → block_height < i64_bound
      → finish_block env s header' abci_header last_commit txs block_height response p a
        ≡ (ok (root, max_bytes), a')
      → (held : Holds s header' block_height response a'.db) × (held.id.hash
          ≡ env.comet.header_hash abci_header)
        × (root ≡ response.app_hash)
        × (max_bytes ≡ to_u64 held.next.consensus_params.block_max_bytes)
  unfolding finish_block
  finish_block_lem lawful s header' abci_header last_commit txs block_height response p a a' root
        max_bytes positive fits h =
      let (next, is_next, h1) = continue-eq-ok (next_state env s response block_height) a _ h in
      let d : D = (env.store.save_state (next.0) a.db).1 in
      let a1 : Adapter D A M = record a { db = d } in
      let (u, saved, h2) = continue-eq-ok (env.store.save_state (next.0) a.db).0 a1 _ h1 in
      let save : env.store.save_state (next.0) a.db ≡ (ok tt, d) = returned saved refl in
      let commit = commit_block env txs block_height response (next.0) a1 in
      let (u2, committed, h3) = continue-eq-ok commit.0 commit.1 _ h2 in
      let seal =
        seal_block env (next.0) header' abci_header last_commit txs block_height response p (next.1)
          commit.1 in
      let (u3, sealed, h4) = continue-eq-ok seal.0 seal.1 _ h3 in
      let same : seal.1 ≡ a' = ap (λ r. r.1) h4 in
      let result = ok_inj (ap (λ r. r.0) h4) in
      let (id, is_id, has_id, has_response, has_state) =
        seal_block_lem env lawful (next.0) header' abci_header last_commit txs block_height response
          p (next.1) commit.1 a' (returned sealed same) in
      (
        record {
          next = next.0;
          changes = next.1;
          id = id;
          is_next = is_next;
          holds_state =
              has_state
              ∙ ap env.store.load_state
                  (commit_block_stores env txs block_height response (next.0) a1)
              ∙ load-save_positive lawful a.db d (next.0) block_height save
                  (next_state_lem s (next.0) response block_height (next.1) is_next).0 positive
                  fits;
          holds_id = has_id;
          holds_response = has_response;
        },
        is_id,
        sym (ap (λ r. r.0) result),
        sym (ap (λ r. r.1) result),
      )

  apply_response_lem :
      (lawful : IsStore env.store) (s : CometState) (header' : Header) (abci_header : CometHeader)
      (last_commit : Commit) (txs : List Bytes) (block_height : ℕ) (response : FinalizeResponse)
      (a a' : Adapter D A M) (root : Bytes) (max_bytes : ℕ)
      → 0 < block_height
      → block_height < i64_bound
      → apply_response env s header' abci_header last_commit txs block_height response a
        ≡ (ok (root, max_bytes), a')
      → (held : Holds s header' block_height response a'.db) × (held.id.hash
          ≡ env.comet.header_hash abci_header)
        × (root ≡ response.app_hash)
        × (max_bytes ≡ to_u64 held.next.consensus_params.block_max_bytes)
  unfolding apply_response
  apply_response_lem lawful s header' abci_header last_commit txs block_height response a a' root
        max_bytes positive fits h =
      let a1 : Adapter D A M = record a { heap = a.heap ++ response ∷ [] } in
      let (u, enough, h1) =
        continue-eq-ok (ensure_index (leb (length txs) (length response.tx_results))) a1 _ h in
      finish_block_lem lawful s header' abci_header last_commit txs block_height response
        (length a.heap) a1 a' root max_bytes positive fits h1

  -- The application accepted the request, and then gave this response to the same request.
  pub record Answers (request : BlockRequest) (app : A) (response : FinalizeResponse) : Type 0 where
    pub is_accepted : (env.process_proposal request app).0 ≡ ok true
    pub is_response :
        (env.finalize_block request (env.process_proposal request app).1).0 ≡ ok response

  -- The response that the application gave is what the rest is about.
  answered_lem :
      (lawful : IsStore env.store) (s : CometState) (header' : Header) (abci_header : CometHeader)
      (last_commit : Commit) (txs : List Bytes) (block_height : ℕ) (request : BlockRequest)
      (a a' : Adapter D A M) (root : Bytes) (max_bytes : ℕ)
      → 0 < block_height
      → block_height < i64_bound
      → (on_app env (env.process_proposal request) >>= (λ accepted.
            guard accepted rejected
            >> (on_app env (env.finalize_block request)
                >>= apply_response env s header' abci_header last_commit txs block_height)))
          a
        ≡ (ok (root, max_bytes), a')
      → (response : FinalizeResponse) × (held : Holds s header' block_height response a'.db)
        × Answers request a.application response
        × (held.id.hash ≡ env.comet.header_hash abci_header)
        × (root ≡ response.app_hash)
        × (max_bytes ≡ to_u64 held.next.consensus_params.block_max_bytes)
  answered_lem lawful s header' abci_header last_commit txs block_height request a a' root max_bytes
        positive fits h =
      let proposed = env.process_proposal request a.application in
      let a1 : Adapter D A M = record a { application = proposed.1 } in
      let (accepted, is_accepted, h1) = continue-eq-ok proposed.0 a1 _ h in
      let (u, yes', h2) = continue-eq-ok (ensure accepted rejected) a1 _ h1 in
      let finalized = env.finalize_block request a1.application in
      let a2 : Adapter D A M = record a1 { application = finalized.1 } in
      let (response, is_response, h3) = continue-eq-ok finalized.0 a2 _ h2 in
      let (held, is_id, is_root, is_max) =
        apply_response_lem lawful s header' abci_header last_commit txs block_height response a2 a'
          root max_bytes positive fits h3 in
      (
        response,
        held,
        record {
          is_accepted = is_accepted ∙ ap ok (ensure-eq-ok accepted rejected yes');
          is_response = is_response;
        },
        is_id,
        is_root,
        is_max,
      )

  -- Where ExecuteTxs returns for a block of a height from 1 on that fits an int64, with a lawful store:
  -- there was a state and a header; the application accepted the proposal of a request with the
  -- transactions, the height and the time that were asked for, and the hash of the next validators, and
  -- gave a response to the same request. The store now holds the state that follows from the state before
  -- and from this response. It has the height of the block and the root that is returned, which is the
  -- response's; its last validators are the validators of the state before; its next validators come from
  -- its validators by one round of proposer priorities. The block's id is stored, with the hash of the
  -- request, and the response, without the block's events if the block may not be published yet; the
  -- limit of bytes returned is that of the stored state.
  pub execute_txs_lem :
      (lawful : IsStore env.store) (context_header : Option Header) (txs : List Bytes)
      (block_height timestamp : ℕ) (a a' : Adapter D A M) (root : Bytes) (max_bytes : ℕ)
      → 0 < block_height
      → block_height < i64_bound
      → execute_txs env context_header txs block_height timestamp a ≡ (ok (root, max_bytes), a')
      → (s : CometState) × (header' : Header) × (request : BlockRequest)
        × (response : FinalizeResponse) × (held : Holds s header' block_height response a'.db)
        × (env.store.load_state a.db ≡ ok s)
        × (context_header ≡ some header')
        × (request.txs ≡ txs)
        × (request.height ≡ to_i64 block_height)
        × (request.time ≡ timestamp)
        × (request.next_validators_hash ≡ env.validators_hash s.next_validators)
        × Answers request a.application response
        × (held.id.hash ≡ request.hash)
        × (root ≡ response.app_hash)
        × (max_bytes ≡ to_u64 held.next.consensus_params.block_max_bytes)
        × (held.next.last_block_height ≡ to_i64 block_height)
        × (held.next.app_hash ≡ root)
        × (held.next.last_validators ≡ s.validators)
        × (env.increment_proposer_priority held.next.validators ≡ ok held.next.next_validators)
  unfolding execute_txs block_request
  execute_txs_lem lawful context_header txs block_height timestamp a a' root max_bytes positive fits
        h =
      let (s, is_state, h1) = continue-eq-ok (env.store.load_state a.db) a _ h in
      let (header', is_header, h2) = continue-eq-ok (or_err context_header no_header) a _ h1 in
      let (last_commit, is_commit, h3) =
        continue-eq-ok
          (get_last_commit env.comet env.get_header (λ n. env.store.get_block_id n a.db)
            block_height)
          a _ h2 in
      let (abci_header, converts, h4) =
        continue-eq-ok (header_or_err (to_abci_header env.comet header' last_commit)) a _ h3 in
      let (proposer, is_proposer, h5) = continue-eq-ok (proposer_address s.validators) a _ h4 in
      let request : BlockRequest =
        block_request env abci_header txs block_height timestamp last_commit proposer s in
      let (response, held, answers, is_id, is_root, is_max) =
        answered_lem lawful s header' abci_header last_commit txs block_height request a a' root
          max_bytes positive fits h5 in
      let (at_height, has_root, last, chain, turn, unchanged) =
        next_state_lem s held.next response block_height held.changes held.is_next in
      (
        s,
        header',
        request,
        response,
        held,
        is_state,
        or_err-eq-ok context_header no_header is_header,
        refl,
        refl,
        refl,
        refl,
        answers,
        is_id,
        is_root,
        is_max,
        at_height,
        has_root ∙ sym is_root,
        last,
        turn,
      )
