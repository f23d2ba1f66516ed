-- ===== src/Samples/Stores.antt =====
-- A memory store with a limit of one finished handler, and a subscriber: the theorems on
-- packages/llama-agents-server/src/llama_agents/server/_store/memory_workflow_store.py at them.
use llama_agents.Prelude.{
  ◌≡◌, refl, pos, negsuc, String, none, some, [], ◌∷◌, arith, lookup, assign, delete,
}
use llama_agents.Storing.Handlers.{Status, PersistentHandler}
use llama_agents.Storing.Memory.{
  EventEnvelope, MemoryStore, new_store, update, append_event, evict_popped, evict_run,
  evict_run_state_stores,
}
use llama_agents.Storing.Reading.{drop, start_cursor, subscribe_events}
use llama_agents.Storing.Capped.{IsCapped, IsUpdated, update-IsUpdated}
use llama_agents.Storing.Appended.{held, append_event-IsPrefix}
use llama_agents.Storing.Subscribed.{up_to_terminal, subscribe_events-up_to_terminal}

abbrev handler_of : String → Status → PersistentHandler
handler_of handler_id status = record {
  handler_id = handler_id;
  workflow_name = "flow";
  status = status;
  run_id = some handler_id;
  error = none;
  result = none;
  started_at = none;
  updated_at = none;
  completed_at = none;
  idle_since = none;
}

new_store-IsCapped : IsCapped (new_store (some 1))
unfolding new_store lookup
new_store-IsCapped = record {
  unique = tt;
  queued = λ id h found t. absurd (ground (arith, found));
  bounded = λ cap e. omega arith;
}

abbrev one_finished : MemoryStore
one_finished = update (handler_of "a" Status.completed) (new_store (some 1))

-- A second update of the only finished handler evicts it.
evicted_early : (update (handler_of "a" Status.completed) one_finished).handlers ≡ []
unfolding update new_store lookup assign delete evict_popped evict_run evict_run_state_stores
evicted_early = refl

update-IsUpdated_example :
    IsUpdated
      (handler_of "b" Status.completed)
      one_finished
      (update (handler_of "b" Status.completed) one_finished)
update-IsUpdated_example =
    update-IsUpdated (handler_of "b" Status.completed) one_finished
      (update-IsUpdated (handler_of "a" Status.completed) (new_store (some 1))
        new_store-IsCapped).capped

abbrev envelope : String → EventEnvelope
envelope type = record { value = "{}"; qualified_name = none; type = type; types = none }

abbrev started : MemoryStore
started = append_event (pos 1) "a" (envelope "StartEvent") (new_store none)

abbrev stopped : MemoryStore
stopped = append_event (pos 2) "a" (envelope "StopEvent") started

subscribe_events-up_to_terminal_example :
    subscribe_events
      (negsuc 0)
      (held "a" (new_store none))
      (held "a" started ∷ held "a" stopped ∷ [])
    ≡ up_to_terminal (drop (start_cursor (negsuc 0) (held "a" (new_store none))) (held "a" stopped))
subscribe_events-up_to_terminal_example =
    subscribe_events-up_to_terminal (negsuc 0) (held "a" (new_store none)) (held "a" started)
      (held "a" stopped ∷ [])
      (append_event-IsPrefix (pos 1) "a" (envelope "StartEvent") (new_store none) "a")
      (append_event-IsPrefix (pos 2) "a" (envelope "StopEvent") started "a", tt)
