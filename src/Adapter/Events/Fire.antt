-- ===== src/Adapter/Events/Fire.antt =====
-- pkg/adapter/adapter.go: what fireEvents publishes, against the list of a block's events.
use go_execution_abci.Prelude.{
  ℕ, suc, ◌%◌, ◌^◌, ◌≤◌, ◌≡◌, refl, ap, ◌∙◌, sym, Bool, true, length, List, [], ◌∷◌, ◌++◌, map,
  arith, Bool-cases, inl, inr,
}
use mathlib.Core.List.{append_assoc, append-nil}
use go_execution_abci.Prelude.Int.{ℤ}
use go_execution_abci.Prelude.Exec.{ok, Exec, continue, ◌>>◌, pure, >>-cong, >>-assoc}
use go_execution_abci.Compat.Types.{Bytes, BlockId, Block}
use go_execution_abci.Adapter.Types.{
  Error, Validator, TxResult, FinalizeResponse, Published, new_block, new_block_header,
  new_block_events, new_evidence, tx, validator_set_updates,
}
use go_execution_abci.Adapter.Events.{publish, fire_evidence, fire_txs, fire_updates, fire_events}

abbrev pub tx_events : ℤ → ℕ → List Bytes → List TxResult → List Published
tx_events height i [] results = []
tx_events height i (t ∷ txs) [] = []
tx_events height i (t ∷ txs) (r ∷ results) =
    tx height (i % 2 ^ 32) t r ∷ tx_events height (suc i) txs results

abbrev pub update_events : List Validator → List Published
update_events [] = []
update_events (v ∷ vs) = validator_set_updates (v ∷ vs) ∷ []

-- The events of a block, in their order.
abbrev pub block_events : Block → BlockId → FinalizeResponse → List Validator → List Published
block_events block block_id response updates =
    new_block block block_id response
    ∷ new_block_header block.header
    ∷ new_block_events block.header.height response.events (length block.txs)
    ∷ (map (λ ev. new_evidence ev block.header.height) block.evidence
        ++ (tx_events block.header.height 0 block.txs response.tx_results ++ update_events updates))

module _ (accepts : List Published → Published → Bool) where
  -- Publishes a list of events until one is refused.
  abbrev pub publish_all : List Published → Exec Error (List Published) (Unit {0})
  publish_all [] = pure tt
  publish_all (e ∷ es) = publish accepts e >> publish_all es

  publish_all-append :
      (es fs : List Published) (log : List Published)
      → publish_all (es ++ fs) log ≡ (publish_all es >> publish_all fs) log
  publish_all-append [] fs log = refl
  publish_all-append (e ∷ es) fs log =
      >>-cong (publish accepts e) (publish_all-append es fs) log
      ∙ >>-assoc (publish accepts e) (publish_all es) (publish_all fs) log

  fire_evidence_lem :
      (height : ℤ) (evidence : List Bytes) (log : List Published)
      → fire_evidence accepts height evidence log
        ≡ publish_all (map (λ ev. new_evidence ev height) evidence) log
  unfolding fire_evidence
  fire_evidence_lem height [] log = refl
  fire_evidence_lem height (ev ∷ rest) log =
      >>-cong (publish accepts (new_evidence ev height)) (fire_evidence_lem height rest) log

  fire_txs_lem :
      (height : ℤ) (i : ℕ) (txs : List Bytes) (results : List TxResult)
      → length txs ≤ length results
      → (log : List Published)
      → fire_txs accepts height i txs results log ≡ publish_all (tx_events height i txs results) log
  unfolding fire_txs
  fire_txs_lem height i [] results h log = refl
  fire_txs_lem height i (t ∷ txs) [] h log = absurd (omega arith)
  fire_txs_lem height i (t ∷ txs) (r ∷ results) h log =
      >>-cong (publish accepts (tx height (i % 2 ^ 32) t r))
        (fire_txs_lem height (suc i) txs results (omega arith)) log

  fire_updates_lem :
      (updates : List Validator) (log : List Published)
      → fire_updates accepts updates log ≡ publish_all (update_events updates) log
  unfolding fire_updates
  fire_updates_lem [] log = refl
  fire_updates_lem (v ∷ vs) log = single (validator_set_updates (v ∷ vs)) log
    where
      single : (e : Published) (l : List Published) → publish accepts e l ≡ publish_all (e ∷ []) l
      single e l = elim (Bool-cases (accepts l e)) [ inl h ↦ rw h refl | inr h ↦ rw h refl ]

  -- A part of the events, then the rest.
  publish_all-part :
      (part : Exec Error (List Published) (Unit {0})) (es fs : List Published)
      (rest : Exec Error (List Published) (Unit {0})) (log : List Published)
      → part log ≡ publish_all es log
      → ((l : List Published) → rest l ≡ publish_all fs l)
      → (part >> rest) log ≡ publish_all (es ++ fs) log
  publish_all-part part es fs rest log h k =
      ap (λ r. continue r.0 r.1 (λ _. rest)) h
      ∙ >>-cong (publish_all es) k log
      ∙ sym (publish_all-append es fs log)

  -- With a result for each transaction, fireEvents publishes the events of the block in their order,
  -- until the bus refuses one.
  pub fire_events-publish_all :
      (block : Block) (block_id : BlockId) (response : FinalizeResponse) (updates : List Validator)
      → length block.txs ≤ length response.tx_results
      → (log : List Published)
      → fire_events accepts block block_id response updates log
        ≡ publish_all (block_events block block_id response updates) log
  unfolding fire_events
  fire_events-publish_all block block_id response updates h =
      let height : ℤ = block.header.height in
      let events : Published = new_block_events height response.events (length block.txs) in
      >>-cong (publish accepts (new_block block block_id response)) (
        >>-cong (publish accepts (new_block_header block.header)) (
          >>-cong (publish accepts events) (λ log.
            publish_all-part (fire_evidence accepts height block.evidence)
              (map (λ ev. new_evidence ev height) block.evidence)
              (tx_events height 0 block.txs response.tx_results ++ update_events updates)
              (fire_txs accepts height 0 block.txs response.tx_results
                >> fire_updates accepts updates)
              log (fire_evidence_lem height block.evidence log)
              (λ l.
                publish_all-part (fire_txs accepts height 0 block.txs response.tx_results)
                  (tx_events height 0 block.txs response.tx_results) (update_events updates)
                  (fire_updates accepts updates) l
                  (fire_txs_lem height 0 block.txs response.tx_results h l)
                  (fire_updates_lem updates)))))

  -- What a list of events adds when the bus refuses none.
  pub publish_all_ok :
      (es log : List Published)
      → ((l : List Published) (e : Published) → accepts l e ≡ true)
      → publish_all es log ≡ (ok tt, log ++ es)
  publish_all_ok [] log h = ap (λ l. (ok tt, l)) (sym (append-nil log))
  publish_all_ok (e ∷ es) log h =
      rw (h log e)
        (publish_all_ok es (log ++ e ∷ []) h ∙ ap (λ l. (ok tt, l)) (append_assoc log (e ∷ []) es))
