-- ===== src/Saving/Reading.antt =====
-- `BrokerState.from_serialized` and `_deserialize_event_attempt` of
-- workflows/runtime/types/internal_state.py.
use llama_agents.Prelude.{
  false, Option, none, some, List, [], ◌∷◌, ◌++◌, if◌then◌else◌, Dict, lookup, assign, Result, ok,
  ◌>>=◌,
}
use llama_agents.Types.{
  Event, BrokerState, CollectionReleasePayload, CollectionReleaseState, CollectionStreamInstance,
  EventAttempt, InternalStepWorkerState, StepWorkerWaiter, as_event,
}
use llama_agents.Start.{Workflow, from_workflow}
use llama_agents.Saving.Serialized.{
  LoadError, Serializer, SerializedCollectionReleasePayload, SerializedEventAttempt,
  SerializedWaiter, SerializedStepWorkerState, SerializedCollectionStreamInstance,
  SerializedCollectionReleaseState, SerializedContext,
}
use llama_agents.Saving.Writing.{map_values}

abbrev pub Loaded : Type 0 → Type 0
Loaded A = Result LoadError A

-- `[f(x) for x in xs]`, with the first exception that `f` raises.
unfoldable pub traverse : {A B : Type 0} → (A → Loaded B) → List A → Loaded (List B)
traverse f [] = ok []
traverse f (x ∷ xs) = do y ← f x; ys ← traverse f xs; ok (y ∷ ys)

unfoldable pub traverse_values : {A B : Type 0} → (A → Loaded B) → Dict A → Loaded (Dict B)
traverse_values f [] = ok []
traverse_values f ((key, x) ∷ d) = do y ← f x; rest ← traverse_values f d; ok ((key, y) ∷ rest)

-- `f(x) if x is not None else None`
unfoldable pub traverse_option : {A B : Type 0} → (A → Loaded B) → Option A → Loaded (Option B)
traverse_option f none = ok none
traverse_option f (some x) = do y ← f x; ok (some y)

module _ {Value : Type 0} (serializer : Serializer Value) where
  open serializer use {deserialize, import_event_type}

  unfoldable pub deserialize_payload :
      SerializedCollectionReleasePayload Value → Loaded CollectionReleasePayload
  unfolding traverse
  deserialize_payload payload = do
    events ← traverse deserialize payload.events
    ok (record {
      binding_id = payload.binding_id;
      stream_id = payload.stream_id;
      events = events;
      output_scope_path = payload.output_scope_path;
    })

  -- The trigger event of a work item: that of the payload, where there is one.
  unfoldable pub trigger_event : Option CollectionReleasePayload → Value → Loaded Event
  trigger_event none text = deserialize text
  trigger_event (some payload) text = ok (as_event payload)

  unfoldable pub deserialize_event_attempt : SerializedEventAttempt Value → Loaded EventAttempt
  unfolding traverse_option traverse_values deserialize_payload trigger_event
  deserialize_event_attempt attempt = do
    payload ← traverse_option deserialize_payload attempt.collection_release_payload
    event ← trigger_event payload attempt.event
    bound_events ← traverse_option (traverse_values deserialize) attempt.bound_events
    ok (record {
      event = event;
      bound_events = bound_events;
      attempts = some attempt.attempts;
      first_attempt_at = attempt.first_attempt_at;
      last_exception = attempt.last_exception;
      last_failed_at = attempt.last_failed_at;
      recovery_counts = attempt.recovery_counts;
      not_before = attempt.not_before;
      scope_path = attempt.scope_path;
      collection_release_payload = payload;
      work_item_id = attempt.work_item_id;
    })

  -- `deserialize(text) if text else None`
  unfoldable pub resolved_of : Option Value → Loaded (Option Event)
  resolved_of none = ok none
  resolved_of (some text) =
      if serializer.is_empty_text text
      then ok none
      else (do event ← deserialize text; ok (some event))

  unfoldable pub deserialize_waiter : SerializedWaiter Value → Loaded StepWorkerWaiter
  unfolding traverse_option traverse_values deserialize_payload trigger_event resolved_of
  deserialize_waiter waiter = do
    payload ← traverse_option deserialize_payload waiter.collection_release_payload
    bound_events ← traverse_option (traverse_values deserialize) waiter.bound_events
    event ← trigger_event payload waiter.event
    waiting_for_event ← import_event_type waiter.waiting_for_event
    resolved_event ← resolved_of waiter.resolved_event
    ok (record {
      waiter_id = waiter.waiter_id;
      event = event;
      waiting_for_event = waiting_for_event;
      requirements = [];
      has_requirements = waiter.has_requirements;
      resolved_event = resolved_event;
      bound_events = bound_events;
      timed_out = false;
      scope_path = waiter.scope_path;
      collection_release_payload = payload;
      work_item_id = waiter.work_item_id;
    })

  unfoldable pub restore_worker :
      SerializedStepWorkerState Value → InternalStepWorkerState → Loaded InternalStepWorkerState
  unfolding traverse traverse_values deserialize_event_attempt deserialize_waiter
  restore_worker saved worker = do
    queue ← traverse deserialize_event_attempt (saved.queue ++ saved.in_progress)
    collected_events ← traverse_values (traverse deserialize) saved.collected_events
    static_collect_events ← traverse deserialize saved.static_collect_events
    collected_waiters ← traverse deserialize_waiter saved.collected_waiters
    ok (record worker {
      queue = queue;
      collected_events = collected_events;
      static_collect_events = static_collect_events;
      collected_waiters = collected_waiters;
    })

  -- The loop over the persisted workers; those of steps that the workflow has no more are passed over.
  unfoldable pub restore_workers :
      Dict (SerializedStepWorkerState Value)
      → Dict InternalStepWorkerState
      → Loaded (Dict InternalStepWorkerState)
  unfolding restore_worker
  restore_workers [] workers = ok workers
  restore_workers ((step_name, saved) ∷ rest) workers = elim (lookup step_name workers) [
    | none ↦ restore_workers rest workers
    | some worker ↦ restore_worker saved worker >>= λ worker'.
        restore_workers rest (assign step_name worker' workers)
  ]

  unfoldable pub deserialize_stream : SerializedCollectionStreamInstance → CollectionStreamInstance
  deserialize_stream stream = record {
    stream_id = stream.stream_id;
    source_step = stream.source_step;
    scope_path = stream.scope_path;
    open_work_items = stream.open_work_items;
    accepting_binding_ids = stream.accepting_binding_ids;
  }

  unfoldable pub deserialize_release :
      SerializedCollectionReleaseState Value → Loaded CollectionReleaseState
  unfolding traverse
  deserialize_release release = do
    buffer ← traverse deserialize release.buffer
    ok (record {
      binding_id = release.binding_id;
      stream_id = release.stream_id;
      buffer = buffer;
      released = release.released;
    })

  unfoldable pub from_serialized : SerializedContext Value → Workflow → Loaded BrokerState
  unfolding map_values traverse_values deserialize_stream deserialize_release restore_workers
      from_workflow
  from_serialized serialized workflow = do
    let base_state = from_workflow workflow
    releases ← traverse_values deserialize_release serialized.collection_release_states
    workers ← restore_workers serialized.workers base_state.workers
    ok (record base_state {
      is_running = serialized.is_running;
      stream_seq = serialized.stream_seq;
      work_item_seq = serialized.work_item_seq;
      streams = map_values deserialize_stream serialized.streams;
      collection_release_states = releases;
      workers = workers;
    })
