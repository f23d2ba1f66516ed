-- ===== src/Storing/Memory.antt =====
-- `MemoryWorkflowStore` of packages/llama-agents-server/src/llama_agents/server/_store/
-- memory_workflow_store.py, with `update_handler_status` of abstract_workflow_store.py. A state store
-- is the key under which it is cached; the store's clock is an argument.
use llama_agents.Prelude.{
  ℕ, ◌+◌, ℤ, pos, leb_ℤ, leb, String, not, Option, none, some, List, [], ◌∷◌, ◌++◌, length, take,
  select, last?, map, str_eq, if◌then◌else◌, Dict, lookup, assign, delete, values, get_or,
}
use llama_agents.Types.{Event}
use llama_agents.Storing.Handlers.{
  Status, is_terminal_status, PersistentHandler, HandlerQuery, matches_query,
}

-- An event as clients read it; its data is JSON text.
pub record EventEnvelope : Type 0 where
  pub value : String
  pub qualified_name : Option String
  pub type : String
  pub types : Option (List String)

pub record StoredEvent : Type 0 where
  pub run_id : String
  pub sequence : ℕ
  pub timestamp : ℤ
  pub event : EventEnvelope

pub record StoredTick : Type 0 where
  pub run_id : String
  pub sequence : ℕ
  pub timestamp : ℤ
  pub tick_data : String

pub record MemoryStore : Type 0 where
  pub handlers : Dict PersistentHandler
  pub events : Dict (List StoredEvent)
  pub ticks : Dict (List StoredTick)
  pub state_stores : List (String × List String)
  pub max_completed : Option ℕ
  pub terminal_queue : List String

unfoldable pub new_store : Option ℕ → MemoryStore
new_store max_completed = record {
  handlers = [];
  events = [];
  ticks = [];
  state_stores = [];
  max_completed = max_completed;
  terminal_queue = [];
}

unfoldable pub query : HandlerQuery → MemoryStore → List PersistentHandler
unfolding matches_query
query q store = select (λ handler. matches_query handler q) (values store.handlers)

unfoldable pub evict_run_state_stores : String → MemoryStore → MemoryStore
evict_run_state_stores run_id store = record store {
  state_stores = select (λ key. not (str_eq key.0 run_id)) store.state_stores;
}

-- What a handler's run left.
unfoldable pub evict_run : Option String → MemoryStore → MemoryStore
unfolding evict_run_state_stores
evict_run none store = store
evict_run (some run_id) store =
    evict_run_state_stores run_id
      (record store { events = delete run_id store.events; ticks = delete run_id store.ticks })

-- The body of the loop, for an id that was popped: it is skipped if its handler is gone or runs again.
unfoldable pub evict_popped : String → MemoryStore → MemoryStore
unfolding evict_run
evict_popped handler_id store = elim (lookup handler_id store.handlers) [
  | none ↦ store
  | some handler ↦
      if is_terminal_status handler.status
      then evict_run handler.run_id (record store { handlers = delete handler_id store.handlers })
      else store
]

-- `while len(queue) > max_completed`, over the queue.
unfoldable pub evict_over : ℕ → List String → MemoryStore → MemoryStore
unfolding evict_popped
evict_over cap [] store = record store { terminal_queue = [] }
evict_over cap (handler_id ∷ queue) store =
    let rest = evict_over cap queue (evict_popped handler_id store) in
    if leb (length (handler_id ∷ queue)) cap
    then record store { terminal_queue = handler_id ∷ queue }
    else rest

unfoldable pub evict_oldest_completed : MemoryStore → MemoryStore
unfolding evict_over
evict_oldest_completed store = elim store.max_completed [
  | none ↦ store
  | some cap ↦ evict_over cap store.terminal_queue store
]

unfoldable pub update : PersistentHandler → MemoryStore → MemoryStore
unfolding is_terminal_status evict_oldest_completed
update handler store =
    let stored = record store { handlers = assign handler.handler_id handler store.handlers } in
    if is_terminal_status handler.status
    then evict_oldest_completed
        (record stored { terminal_queue = store.terminal_queue ++ handler.handler_id ∷ [] })
    else stored

unfoldable pub delete_all : List String → Dict PersistentHandler → Dict PersistentHandler
delete_all [] handlers = handlers
delete_all (handler_id ∷ ids) handlers = delete_all ids (delete handler_id handlers)

-- `delete`, the ids that it removes first.
unfoldable pub matching_ids : HandlerQuery → Dict PersistentHandler → List String
unfolding matches_query
matching_ids q [] = []
matching_ids q ((handler_id, handler) ∷ handlers) =
    let rest = matching_ids q handlers in
    if matches_query handler q then handler_id ∷ rest else rest

unfoldable pub delete_handlers : HandlerQuery → MemoryStore → ℕ × MemoryStore
unfolding delete_all matching_ids
delete_handlers q store =
    let to_delete = matching_ids q store.handlers in
    (length to_delete, record store { handlers = delete_all to_delete store.handlers })

-- `(existing[-1].sequence + 1) if existing else 0`
unfoldable pub next_sequence : Option ℕ → ℕ
next_sequence none = 0
next_sequence (some sequence) = sequence + 1

unfoldable pub append_event : ℤ → String → EventEnvelope → MemoryStore → MemoryStore
unfolding next_sequence
append_event now run_id event store =
    let existing = get_or (lookup run_id store.events) [] in
    let stored : StoredEvent = record {
      run_id = run_id;
      sequence = next_sequence (last? (map (λ e. e.sequence) existing));
      timestamp = now;
      event = event;
    } in
    record store { events = assign run_id (existing ++ stored ∷ []) store.events }

unfoldable pub append_tick : ℤ → String → String → MemoryStore → MemoryStore
unfolding next_sequence
append_tick now run_id tick_data store =
    let existing = get_or (lookup run_id store.ticks) [] in
    let stored : StoredTick = record {
      run_id = run_id;
      sequence = next_sequence (last? (map (λ e. e.sequence) existing));
      timestamp = now;
      tick_data = tick_data;
    } in
    record store { ticks = assign run_id (existing ++ stored ∷ []) store.ticks }

unfoldable pub get_ticks : String → MemoryStore → List StoredTick
get_ticks run_id store = get_or (lookup run_id store.ticks) []

unfoldable pub query_events : String → Option ℤ → Option ℕ → MemoryStore → List StoredEvent
query_events run_id after_sequence limit store =
    let events = get_or (lookup run_id store.events) [] in
    let later = elim after_sequence as (λ _. List StoredEvent) [
      | none ↦ events
      | some n ↦ select (λ e. not (leb_ℤ (pos e.sequence) n)) events
    ] in
    elim limit [ none ↦ later | some n ↦ take n later ]

-- What `update_handler_status` changes of a handler. `idle_since` is `none` where it is not passed.
pub record StatusUpdate : Type 0 where
  pub status : Option Status
  pub result : Option Event
  pub error : Option String
  pub idle_since : Option (Option ℤ)

abbrev pub or_else {ℓ} : {A : Type ℓ} → Option A → Option A → Option A
or_else none old = old
or_else (some a) old = some a

unfoldable pub apply_status : ℤ → StatusUpdate → PersistentHandler → PersistentHandler
unfolding is_terminal_status
apply_status now change handler = record handler {
  status = get_or change.status handler.status;
  updated_at = some now;
  completed_at = elim change.status [
    | none ↦ handler.completed_at
    | some status ↦ if is_terminal_status status then some now else handler.completed_at
  ];
  result = or_else change.result handler.result;
  error = or_else change.error handler.error;
  idle_since = get_or change.idle_since handler.idle_since;
}

-- The first handler of the run is updated, and nothing where there is none.
unfoldable pub update_handler_status : ℤ → String → StatusUpdate → MemoryStore → MemoryStore
unfolding query apply_status update
update_handler_status now run_id change store =
    elim (query
      (record {
        handler_id_in = none;
        run_id_in = some (run_id ∷ []);
        workflow_name_in = none;
        status_in = none;
        is_idle = none;
      })
      store) [ [] ↦ store | handler ∷ _ ↦ update (apply_status now change handler) store ]
