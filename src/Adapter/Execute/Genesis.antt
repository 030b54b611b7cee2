-- ===== src/Adapter/Execute/Genesis.antt =====
-- pkg/adapter/adapter.go: when InitChain succeeds, and the state that it saves.
use go_execution_abci.Prelude.{
  ℕ, String, ◌≡◌, refl, sym, ap, subst, ◌∙◌, Bool, true, false, not, ◌==◌, nat_eq, string_eq,
  if◌then◌else◌, length, Option, none, some, List,
}
use go_execution_abci.Prelude.Int.{pos, to_i64, to_u64}
use go_execution_abci.Prelude.Exec.{
  ok, err, then_ok-eq-ok, or_err, ensure, ensure-eq-ok, or_err-eq-ok, continue-eq-ok, ok_inj,
  returned,
}
use go_execution_abci.Compat.Types.{Bytes}
use go_execution_abci.Adapter.Types.{
  updates, not_one_validator, time_mismatch, chain_id_mismatch, height_mismatch, Validator,
  ValidatorSet, CometState, Adapter,
}
use go_execution_abci.Adapter.Store.RoundTrip.{IsStore, IsLoaded}
use go_execution_abci.Adapter.Env.{InitRequest, InitResponse, AppGenesis, Env}
use go_execution_abci.Adapter.Execute.{check_genesis, initial_state, init_chain}

module _ {D A M : Type 0} (env : Env D A M) where
  check_genesis_lem :
      (app_genesis : Option AppGenesis) (genesis_time initial_height : ℕ) (chain_id : String)
      (g : AppGenesis)
      → check_genesis env app_genesis genesis_time initial_height chain_id ≡ ok g
      → (app_genesis ≡ some g)
        × (g.genesis_time ≡ genesis_time)
        × (g.chain_id ≡ chain_id)
        × (initial_height ≡ to_u64 g.initial_height)
  unfolding check_genesis
  check_genesis_lem none genesis_time initial_height chain_id g h = cc
  check_genesis_lem (some g') genesis_time initial_height chain_id g h =
      passed (g'.genesis_time == genesis_time) (g'.chain_id == chain_id)
        (initial_height == to_u64 g'.initial_height) (nat_eq.beq_iff g'.genesis_time genesis_time).0
        (string_eq.beq_iff g'.chain_id chain_id).0
        (nat_eq.beq_iff initial_height (to_u64 g'.initial_height)).0 h
    where
      passed :
          (b c d : Bool)
          → (b ≡ true → g'.genesis_time ≡ genesis_time)
          → (c ≡ true → g'.chain_id ≡ chain_id)
          → (d ≡ true → initial_height ≡ to_u64 g'.initial_height)
          → (if not b
              then err time_mismatch
              else if not c
              then err chain_id_mismatch
              else if not d
              then err height_mismatch
              else ok g')
            ≡ ok g
          → (some g' ≡ some g)
            × (g.genesis_time ≡ genesis_time)
            × (g.chain_id ≡ chain_id)
            × (initial_height ≡ to_u64 g.initial_height)
      passed false c d hb hc hd k = cc
      passed true false d hb hc hd k = cc
      passed true true false hb hc hd k = cc
      passed true true true hb hc hd k =
          let same = ok_inj k in
          (
            ap some same,
            sym (ap (λ r. r.genesis_time) same) ∙ hb refl,
            sym (ap (λ r. r.chain_id) same) ∙ hc refl,
            hd refl ∙ ap (λ r. to_u64 r.initial_height) same,
          )

  -- A state that starts from the application's answer, for exactly one validator that it named.
  pub record IsInitial (g : AppGenesis) (chain_id : String) (response : InitResponse)
      (s : CometState) : Type 0 where
    pub vals : List Validator
    pub named : env.validator_updates response.validators ≡ some vals
    pub one : length (env.new_validator_set vals).validators ≡ 1
    pub current : s.validators ≡ env.new_validator_set (env.new_validator_set vals).validators
    pub next : env.increment_proposer_priority s.validators ≡ ok s.next_validators
    pub params :
        s.consensus_params
        ≡ elim response.consensus_params [ none ↦ g.consensus_params | some p ↦ p ]
    pub chain : s.chain_id ≡ chain_id
    pub height : s.last_block_height ≡ pos 0
    pub app_hash : s.app_hash ≡ response.app_hash

  initial_state-IsInitial :
      (g : AppGenesis) (initial_height : ℕ) (chain_id : String) (response : InitResponse)
      (s : CometState)
      → initial_state env g initial_height chain_id response ≡ ok s
      → IsInitial g chain_id response s
  unfolding initial_state
  initial_state-IsInitial g initial_height chain_id response s h =
      let (vals, converted, h1) =
        then_ok-eq-ok (or_err (env.validator_updates response.validators) updates) _ h in
      let set : ValidatorSet = env.new_validator_set vals in
      let (u, one, h2) =
        then_ok-eq-ok (ensure (length set.validators == 1) not_one_validator) _ h1 in
      let (next, is_next, h3) =
        then_ok-eq-ok (env.increment_proposer_priority (env.new_validator_set set.validators)) _
          h2 in
      let same = ok_inj h3 in
      record {
        vals = vals;
        named = or_err-eq-ok (env.validator_updates response.validators) updates converted;
        one =
            (nat_eq.beq_iff (length set.validators) 1).0
              (ensure-eq-ok (length set.validators == 1) not_one_validator one);
        current = sym (ap (λ r. r.validators) same);
        next =
            subst
              (λ (r : CometState).
                env.increment_proposer_priority r.validators ≡ ok r.next_validators)
              same is_next;
        params = sym (ap (λ r. r.consensus_params) same);
        chain = sym (ap (λ r. r.chain_id) same);
        height = sym (ap (λ r. r.last_block_height) same);
        app_hash = sym (ap (λ r. r.app_hash) same);
      }

  -- Its last validators do not matter.
  loaded-IsInitial :
      (g : AppGenesis) (chain_id : String) (response : InitResponse) (s t : CometState)
      → IsLoaded s t
      → IsInitial g chain_id response s
      → IsInitial g chain_id response t
  loaded-IsInitial g chain_id response s t loaded initial =
      subst (λ r. IsInitial g chain_id response r) (sym loaded.but_last)
        record {
          vals = initial.vals;
          named = initial.named;
          one = initial.one;
          current = initial.current;
          next = initial.next;
          params = initial.params;
          chain = initial.chain;
          height = initial.height;
          app_hash = initial.app_hash;
        }

  abbrev pub init_request : AppGenesis → ℕ → ℕ → String → InitRequest
  init_request g genesis_time initial_height chain_id = record {
    time = genesis_time;
    chain_id = chain_id;
    consensus_params = g.consensus_params;
    validators = env.new_validator_set g.validators;
    app_state = g.app_state;
    initial_height = to_i64 initial_height;
  }

  -- Where InitChain returns, with a lawful store: the genesis document is there and has the time, the
  -- chain id and the initial height that were asked for; the application answered the request that is
  -- made of the document and of these, and named exactly one validator. The state that the store now
  -- loads has this validator as its current one, next validators that come from it by one round of
  -- proposer priorities, the answer's consensus parameters, or the document's where it has none, the
  -- chain id and the height 0; its root is the answer's, and is returned with its limit of bytes.
  pub init_chain_lem :
      (lawful : IsStore env.store) (app_genesis : Option AppGenesis)
      (genesis_time initial_height : ℕ) (chain_id : String) (a a' : Adapter D A M) (root : Bytes)
      (max_bytes : ℕ)
      → init_chain env app_genesis genesis_time initial_height chain_id a
        ≡ (ok (root, max_bytes), a')
      → (g : AppGenesis) × (response : InitResponse) × (s : CometState) × (app_genesis ≡ some g)
        × (g.genesis_time ≡ genesis_time)
        × (g.chain_id ≡ chain_id)
        × (initial_height ≡ to_u64 g.initial_height)
        × (env.init_chain (init_request g genesis_time initial_height chain_id) a.application
            ≡ (ok response, a'.application))
        × (env.store.load_state a'.db ≡ ok s)
        × IsInitial g chain_id response s
        × (root ≡ response.app_hash)
        × (max_bytes ≡ to_u64 s.consensus_params.block_max_bytes)
  unfolding init_chain
  init_chain_lem lawful app_genesis genesis_time initial_height chain_id a a' root max_bytes h =
      let (g, checked, h1) =
        continue-eq-ok (check_genesis env app_genesis genesis_time initial_height chain_id) a _ h in
      let answer =
        env.init_chain (init_request g genesis_time initial_height chain_id) a.application in
      let a1 : Adapter D A M = record a { application = answer.1 } in
      let (response, is_response, h2) = continue-eq-ok answer.0 a1 _ h1 in
      let (s, is_initial, h3) =
        continue-eq-ok (initial_state env g initial_height chain_id response) a1 _ h2 in
      let d : D = (env.store.save_state s a.db).1 in
      let (u, saved, h4) =
        continue-eq-ok (env.store.save_state s a.db).0 (record a1 { db = d }) _ h3 in
      let result = ok_inj (ap (λ r. r.0) h4) in
      let (named, right_time, right_chain, right_height) =
        check_genesis_lem app_genesis genesis_time initial_height chain_id g checked in
      let (t, found, loaded) =
        lawful.load-save_state a.db a'.db s (returned saved (ap (λ r. r.1.db) h4)) in
      (
        g,
        response,
        t,
        named,
        right_time,
        right_chain,
        right_height,
        returned is_response (ap (λ r. r.1.application) h4),
        found,
        loaded-IsInitial g chain_id response s t loaded
            (initial_state-IsInitial g initial_height chain_id response s is_initial),
        sym (ap (λ r. r.0) result),
        sym (ap (λ r. r.1) result)
            ∙ ap (λ r. to_u64 r.consensus_params.block_max_bytes) (sym loaded.but_last),
      )
