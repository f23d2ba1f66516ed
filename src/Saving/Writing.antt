-- ===== src/Saving/Writing.antt =====
-- `BrokerState.to_serialized` of workflows/runtime/types/internal_state.py.
use Prim.Native.String.{◌++◌ as text_append}
use mathlib.Core.Option
use llama_agents.Prelude.{String, not, ◌||◌, none, some, [], ◌∷◌, map, get_or, is_empty, Dict}
use llama_agents.Types.{
  World, Class, BrokerState, CollectionReleasePayload, CollectionReleaseState,
  CollectionStreamInstance, EventAttempt, InProgressState, InternalStepWorkerState,
  StepWorkerWaiter,
}
use llama_agents.Saving.Serialized.{
  Serializer, SerializedCollectionReleasePayload, SerializedEventAttempt, SerializedWaiter,
  SerializedStepWorkerState, SerializedCollectionStreamInstance, SerializedCollectionReleaseState,
  SerializedContext,
}

-- `{key: f(value) for key, value in d.items()}`
unfoldable pub map_values : {A B : Type 0} → (A → B) → Dict A → Dict B
map_values f [] = []
map_values f ((key, value) ∷ d) = (key, f value) ∷ map_values f d

-- `f"{cls.__module__}.{cls.__name__}"`
unfoldable pub type_name : World → Class → String
type_name w class = text_append (w.class_module class) (text_append "." (w.class_name class))

module _ {Value : Type 0} (w : World) (serializer : Serializer Value) where
  open serializer use {serialize}

  unfoldable pub serialize_payload :
      CollectionReleasePayload → SerializedCollectionReleasePayload Value
  serialize_payload payload = record {
    binding_id = payload.binding_id;
    stream_id = payload.stream_id;
    events = map serialize payload.events;
    output_scope_path = payload.output_scope_path;
  }

  unfoldable pub serialize_attempt : EventAttempt → SerializedEventAttempt Value
  unfolding map_values serialize_payload
  serialize_attempt attempt = record {
    event = serialize attempt.event;
    bound_events = Option.map (map_values serialize) attempt.bound_events;
    attempts = get_or attempt.attempts 0;
    first_attempt_at = attempt.first_attempt_at;
    last_exception = attempt.last_exception;
    last_failed_at = attempt.last_failed_at;
    recovery_counts = attempt.recovery_counts;
    not_before = attempt.not_before;
    scope_path = attempt.scope_path;
    collection_release_payload = Option.map serialize_payload attempt.collection_release_payload;
    work_item_id = attempt.work_item_id;
  }

  unfoldable pub serialize_execution : InProgressState → SerializedEventAttempt Value
  unfolding map_values serialize_payload
  serialize_execution ip = record {
    event = serialize ip.event;
    bound_events = Option.map (map_values serialize) ip.bound_events;
    attempts = ip.attempts;
    first_attempt_at = some ip.first_attempt_at;
    last_exception = ip.last_exception;
    last_failed_at = ip.last_failed_at;
    recovery_counts = ip.recovery_counts;
    not_before = none;
    scope_path = ip.scope_path;
    collection_release_payload =
        Option.map serialize_payload ip.shared_state.collection_release_payload;
    work_item_id = ip.work_item_id;
  }

  unfoldable pub serialize_waiter : StepWorkerWaiter → SerializedWaiter Value
  unfolding map_values serialize_payload type_name
  serialize_waiter waiter = record {
    waiter_id = waiter.waiter_id;
    event = serialize waiter.event;
    bound_events = Option.map (map_values serialize) waiter.bound_events;
    waiting_for_event = type_name w waiter.waiting_for_event;
    has_requirements = not (is_empty waiter.requirements) || waiter.has_requirements;
    resolved_event = Option.map serialize waiter.resolved_event;
    scope_path = waiter.scope_path;
    collection_release_payload = Option.map serialize_payload waiter.collection_release_payload;
    work_item_id = waiter.work_item_id;
  }

  unfoldable pub serialize_worker : InternalStepWorkerState → SerializedStepWorkerState Value
  unfolding serialize_attempt serialize_execution serialize_waiter map_values
  serialize_worker ws = record {
    queue = map serialize_attempt ws.queue;
    in_progress = map serialize_execution ws.in_progress;
    collected_events = map_values (map serialize) ws.collected_events;
    static_collect_events = map serialize ws.static_collect_events;
    collected_waiters = map serialize_waiter ws.collected_waiters;
  }

  unfoldable pub serialize_stream : CollectionStreamInstance → SerializedCollectionStreamInstance
  serialize_stream stream = record {
    stream_id = stream.stream_id;
    source_step = stream.source_step;
    scope_path = stream.scope_path;
    open_work_items = stream.open_work_items;
    accepting_binding_ids = stream.accepting_binding_ids;
  }

  unfoldable pub serialize_release : CollectionReleaseState → SerializedCollectionReleaseState Value
  serialize_release release = record {
    binding_id = release.binding_id;
    stream_id = release.stream_id;
    buffer = map serialize release.buffer;
    released = release.released;
  }

  unfoldable pub to_serialized : BrokerState → SerializedContext Value
  unfolding serialize_worker serialize_stream serialize_release map_values
  to_serialized state = record {
    version = 2;
    is_running = state.is_running;
    workers = map_values serialize_worker state.workers;
    stream_seq = state.stream_seq;
    work_item_seq = state.work_item_seq;
    streams = map_values serialize_stream state.streams;
    collection_release_states = map_values serialize_release state.collection_release_states;
  }
