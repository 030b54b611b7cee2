-- ===== src/Tests/Queues.antt =====
-- The queue after the first block: the block is released when it is final, or dropped.
use go_execution_abci.Prelude.{ℕ, ◌≡◌, ◌⊎◌, refl, Bool, true, false, List, [], ◌∷◌, ◌++◌, arith}
use go_execution_abci.Prelude.Map
use go_execution_abci.Prelude.Map.{Map}
use go_execution_abci.Prelude.Int.{ℤ, pos, to_u64}
use go_execution_abci.Prelude.Exec.{ok}
use go_execution_abci.Compat.Types.{Block}
use go_execution_abci.Adapter.Types.{Published, StackedEvent, Adapter}
use go_execution_abci.Adapter.Store.{store, get_block_response, save_block_response}
use go_execution_abci.Adapter.Events.{fire_events, publish_queued_block_events}
use go_execution_abci.Adapter.Events.Fire.{block_events, publish_all, fire_events-publish_all}
use go_execution_abci.Adapter.Events.Queue.{Waiting, Split}
use go_execution_abci.Adapter.Events.Release.{
  IsAvailable, AllReady, queued_events, publish_queued_block_events_lem,
  publish_queued_block_events-cancelled,
}
use go_execution_abci.Tests.Stores.{Key, Stored, key_eq, memory_store, memory_store-IsStore}
use go_execution_abci.Tests.Chains.{response, no_parts, block_with, sequencer}
use go_execution_abci.Tests.Stores.{empty_state}
use go_execution_abci.Adapter.Commit.{empty_commit}
use go_execution_abci.Tests.Chains.{comet}

abbrev the_block : Block
unfolding empty_commit
the_block = block_with empty_state (pos 1) ((1 ∷ []) ∷ []) (empty_commit comet) (7 ∷ [])

abbrev pub open_bus : List Published → Published → Bool
open_bus log e = true

fire_events-publish_all_example :
    fire_events open_bus the_block no_parts response (sequencer ∷ []) []
    ≡ publish_all open_bus (block_events the_block no_parts response (sequencer ∷ [])) []
unfolding the_block
fire_events-publish_all_example =
    fire_events-publish_all open_bus the_block no_parts response (sequencer ∷ []) (omega arith) []

abbrev queued : StackedEvent
queued = record {
  block_id = no_parts;
  block = the_block;
  abci_response = 0;
  validator_updates = [];
}

abbrev waiting : Adapter (Map Key Stored) ℕ ℕ
waiting = record {
  db = (memory_store.save_block_response 1 response []).1;
  application = 0;
  mempool = 0;
  published = [];
  heap = response ∷ [];
  stacked_events = queued ∷ [];
}

stored : memory_store.get_block_response 1 waiting.db ≡ ok response
unfolding store save_block_response get_block_response Map.get Map.put
stored = refl

pub memory_store-IsAvailable : IsAvailable memory_store
unfolding store save_block_response
memory_store-IsAvailable = record {
  lawful = memory_store-IsStore;
  saves = λ height r d. (Map.put d _ _, refl);
}

ready : AllReady memory_store waiting.heap waiting.db waiting.stacked_events
unfolding the_block to_u64
ready = (
  record {
    response = response;
    points = refl;
    enough_results = omega arith;
    stored = response;
    is_stored = stored;
  },
  tt,
)

abbrev all_heights : ℤ → Bool
all_heights h = true

publish_queued_block_events_lem_example :
    ((publish_queued_block_events memory_store open_bus all_heights (λ _. false) (pos 1) waiting
        ≡ (ok tt, waiting))
      × Waiting all_heights (pos 1) (queued ∷ []))
    ⊎ ((cut : Split all_heights (pos 1) (queued ∷ [])) × (d' : Map Key Stored)
        × (publish_queued_block_events memory_store open_bus all_heights
              (λ _. false)
              (pos 1)
              waiting
            ≡ (
              ok tt,
              record waiting {
                db = d';
                published = [] ++ queued_events (response ∷ []) (cut.before ++ cut.event ∷ []);
                stacked_events = cut.waiting;
              },
            )))
publish_queued_block_events_lem_example =
    publish_queued_block_events_lem memory_store open_bus (λ log e. refl) memory_store-IsAvailable
      all_heights (pos 1) waiting ready

publish_queued_block_events-cancelled_example :
    publish_queued_block_events memory_store open_bus all_heights (λ _. true) (pos 1) waiting
    ≡ (ok tt, record waiting { stacked_events = [] })
unfolding the_block
publish_queued_block_events-cancelled_example =
    publish_queued_block_events-cancelled memory_store open_bus all_heights (λ _. true) (pos 1)
      waiting queued [] refl refl refl
