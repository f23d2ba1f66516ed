-- ===== src/Saving/Serialized.antt =====
-- The persisted records of workflows/context/context_types.py, and what a serializer supplies.
use llama_agents.Prelude.{ℕ, ℤ, String, Bool, Option, List, Dict, Result}
use llama_agents.Types.{Class, Event, Exception}

-- What leaves `deserialize` or the import of an event type as an exception.
pub data LoadError : Type 0 where
  invalid_value invalid_name : LoadError

-- The text of a serialized event is of the serializer's own type `Value`; the loader asks of it only
-- whether it is empty.
-- `BaseSerializer` of workflows/context/serializers.py on events, and `_import_event_type`.
pub record Serializer (Value : Type 0) : Type 0 where
  pub serialize : Event → Value
  pub deserialize : Value → Result LoadError Event
  pub is_empty_text : Value → Bool
  pub import_event_type : String → Result LoadError Class

pub record SerializedCollectionReleasePayload (Value : Type 0) : Type 0 where
  pub binding_id : String
  pub stream_id : String
  pub events : List Value
  pub output_scope_path : List String

pub record SerializedEventAttempt (Value : Type 0) : Type 0 where
  pub event : Value
  pub bound_events : Option (Dict Value)
  pub attempts : ℕ
  pub first_attempt_at : Option ℤ
  pub last_exception : Option Exception
  pub last_failed_at : Option ℤ
  pub recovery_counts : Dict ℕ
  pub not_before : Option ℤ
  pub scope_path : List String
  pub collection_release_payload : Option (SerializedCollectionReleasePayload Value)
  pub work_item_id : Option String

pub record SerializedWaiter (Value : Type 0) : Type 0 where
  pub waiter_id : String
  pub event : Value
  pub bound_events : Option (Dict Value)
  pub waiting_for_event : String
  pub has_requirements : Bool
  pub resolved_event : Option Value
  pub scope_path : List String
  pub collection_release_payload : Option (SerializedCollectionReleasePayload Value)
  pub work_item_id : Option String

pub record SerializedStepWorkerState (Value : Type 0) : Type 0 where
  pub queue : List (SerializedEventAttempt Value)
  pub in_progress : List (SerializedEventAttempt Value)
  pub collected_events : Dict (List Value)
  pub static_collect_events : List Value
  pub collected_waiters : List (SerializedWaiter Value)

pub record SerializedCollectionStreamInstance : Type 0 where
  pub stream_id : String
  pub source_step : String
  pub scope_path : List String
  pub open_work_items : ℤ
  pub accepting_binding_ids : List String

pub record SerializedCollectionReleaseState (Value : Type 0) : Type 0 where
  pub binding_id : String
  pub stream_id : String
  pub buffer : List Value
  pub released : Bool

-- Without the state store's part, which is filled in elsewhere.
pub record SerializedContext (Value : Type 0) : Type 0 where
  pub version : ℕ
  pub is_running : Bool
  pub workers : Dict (SerializedStepWorkerState Value)
  pub stream_seq : ℕ
  pub work_item_seq : ℕ
  pub streams : Dict SerializedCollectionStreamInstance
  pub collection_release_states : Dict (SerializedCollectionReleaseState Value)
