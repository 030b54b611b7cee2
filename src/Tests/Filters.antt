-- ===== src/Tests/Filters.antt =====
-- A queue with the block of height 10, which the network module has softly confirmed.
use go_execution_abci.Prelude.{
  ℕ, ◌≡◌, ◌⊎◌, refl, false, Option, none, some, List, [], ◌∷◌, ◌++◌, arith, ◌==◌, nat_eq,
  if◌then◌else◌, sym, ap, ◌∙◌,
}
use go_execution_abci.Prelude.Int.{ℤ, pos, negsuc, ℤ_eq, to_u64}
use go_execution_abci.Prelude.Map
use go_execution_abci.Prelude.Map.{Map}
use go_execution_abci.Prelude.Exec.{Outcome, ok, err, panic}
use go_execution_abci.Compat.Types.{Bytes}
use go_execution_abci.Network.Types.{Error, State}
use go_execution_abci.Network.Query.{SoftConfirmationStatus, query_soft_confirmation_status}
use go_execution_abci.Adapter.Types.{StackedEvent, Adapter}
use go_execution_abci.Adapter.Events.{publish_queued_block_events}
use go_execution_abci.Adapter.Events.Release.{AllReady, queued_events}
use go_execution_abci.Adapter.Filter.{Querier, is_publishable}
use go_execution_abci.Adapter.Filter.Confirmed.{
  IsRouted, IsReleasable, NoneReleasable, publish_queued_block_events-confirmed,
}
use go_execution_abci.Adapter.Commit.{empty_commit}
use go_execution_abci.Adapter.Store.{store, save_block_response, get_block_response}
use go_execution_abci.Tests.Stores.{Key, Stored, key_eq, memory_store, empty_state}
use go_execution_abci.Tests.Chains.{comet, response, no_parts, block_with}
use go_execution_abci.Tests.Queues.{open_bus, memory_store-IsAvailable}
use go_execution_abci.Tests.Samples.{chain, state}

-- Both validators have attested height 10.
abbrev voted : State
voted = record state { attestation_bitmap = (pos 10, 3 ∷ []) ∷ [] }

abbrev encode : ℤ → Bytes
encode (pos n) = 0 ∷ n ∷ []
encode (negsuc n) = 1 ∷ n ∷ []

abbrev decode : Bytes → ℤ
decode (b ∷ n ∷ []) = if b == 0 then pos n else negsuc n
decode _ = pos 0

decode-encode : (h : ℤ) → decode (encode h) ≡ h
decode-encode (pos n) = refl
decode-encode (negsuc n) = refl

status_of : ℤ → Outcome Error SoftConfirmationStatus
status_of h = query_soft_confirmation_status chain (some h) voted

abbrev reply : Outcome Error SoftConfirmationStatus → Bytes → Option (ℕ × Bytes)
reply (ok status) request = some (0, request)
reply (err e) request = some (1, [])
reply panic request = none

abbrev read : Outcome Error SoftConfirmationStatus → Option SoftConfirmationStatus
read (ok status) = some status
read (err e) = none
read panic = none

abbrev querier : Querier
unfolding status_of
querier = record {
  marshal = λ h. some (encode h);
  query = λ request. reply (status_of (decode request)) request;
  unmarshal = λ value. read (status_of (decode value));
}

querier-IsRouted : IsRouted querier chain voted
unfolding querier
querier-IsRouted = record {
  request = encode;
  marshals = λ h. refl;
  answers = λ h status e.
      let known : status_of (decode (encode h)) ≡ ok status = ap status_of (decode-encode h) ∙ e in
      (encode h, ap (λ r. reply r (encode h)) known, ap read known);
  refuses = λ h code value none' e.
      refused h code value (status_of h) (λ status k. none' status k)
        (ap (λ k. reply (status_of k) (encode h)) (sym (decode-encode h)) ∙ e);
}
  where
    refused :
        (h : ℤ) (code : ℕ) (value : Bytes) (r : Outcome Error SoftConfirmationStatus)
        → ((status : SoftConfirmationStatus) → ¬ (r ≡ ok status))
        → reply r (encode h) ≡ some (code, value)
        → (code == 0) ≡ false
    refused h code value (ok status) never e = absurd (never status refl)
    refused h code value (err x) never e = ground arith
    refused h code value panic never e = cc

abbrev queued : StackedEvent
unfolding empty_commit
queued = record {
  block_id = no_parts;
  block = block_with empty_state (pos 10) ((1 ∷ []) ∷ []) (empty_commit comet) (7 ∷ []);
  abci_response = 0;
  validator_updates = [];
}

abbrev waiting : Adapter (Map Key Stored) ℕ ℕ
unfolding queued
waiting = record {
  db = (memory_store.save_block_response 10 response []).1;
  application = 0;
  mempool = 0;
  published = [];
  heap = response ∷ [];
  stacked_events = queued ∷ [];
}

stored : memory_store.get_block_response 10 waiting.db ≡ ok response
unfolding waiting store get_block_response save_block_response Map.get Map.put
stored = refl

ready : AllReady memory_store waiting.heap waiting.db waiting.stacked_events
unfolding waiting to_u64
ready = (
  record {
    response = response;
    points = refl;
    enough_results = omega arith;
    stored = response;
    is_stored = stored;
  },
  tt,
)

publish_queued_block_events-confirmed_example :
    (s' : Adapter (Map Key Stored) ℕ ℕ) × (front : List StackedEvent) × (publish_queued_block_events
        memory_store open_bus
        (is_publishable querier)
        (λ _. false)
        (pos 10)
        waiting
      ≡ (ok tt, s'))
    × (waiting.stacked_events ≡ front ++ s'.stacked_events)
    × (s'.published ≡ waiting.published ++ queued_events waiting.heap front)
    × ((front ≡ [])
        ⊎ ((before : List StackedEvent) × (last : StackedEvent) × (front ≡ before ++ last ∷ [])
            × IsReleasable chain voted (pos 10) last))
    × NoneReleasable chain voted (pos 10) s'.stacked_events
publish_queued_block_events-confirmed_example =
    publish_queued_block_events-confirmed querier chain voted querier-IsRouted memory_store
      memory_store-IsAvailable open_bus (λ log e. refl) (pos 10) waiting ready
