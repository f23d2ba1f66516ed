-- ===== src/Types/Work.antt =====
-- What a step invocation is given and what it hands back (workflows/runtime/types/results.py).
use Prim.Native.String.{◌++◌}
use llama_agents.Prelude.{ℕ, ℤ, String, Bool, Option, List, Dict}
use llama_agents.Types.Classes.{Class}
use llama_agents.Types.EventTypes.{Event, Exception, collection_release, to_events}

pub record CollectionReleasePayload : Type 0 where
  pub binding_id : String
  pub stream_id : String
  pub events : List Event
  pub output_scope_path : List String

unfoldable pub as_event : CollectionReleasePayload → Event
as_event p = collection_release (to_events p.events) p.stream_id p.binding_id

-- The `work_item_id` method of a payload.
unfoldable pub payload_work_item_id : CollectionReleasePayload → String
payload_work_item_id p = "work_item_collect_" ++ (p.stream_id ++ (":" ++ p.binding_id))

-- Requirements map attribute names to values, which are numbered.
pub record StepWorkerWaiter : Type 0 where
  pub waiter_id : String
  pub event : Event
  pub waiting_for_event : Class
  pub requirements : Dict ℕ
  pub has_requirements : Bool
  pub resolved_event : Option Event
  pub bound_events : Option (Dict Event)
  pub timed_out : Bool
  pub scope_path : List String
  pub collection_release_payload : Option CollectionReleasePayload
  pub work_item_id : Option String

pub record StepWorkerState : Type 0 where
  pub step_name : String
  pub collected_events : Dict (List Event)
  pub collected_waiters : List StepWorkerWaiter
  pub collection_release_payload : Option CollectionReleasePayload
  pub scope_path : List String
  pub work_item_id : Option String

-- `delay` is none where the policy stops retrying.
pub record RetryDecision : Type 0 where
  pub delay : Option ℤ

pub record StepWorkerFailed : Type 0 where
  pub exception : Exception
  pub failed_at : ℤ
  pub retry_decision : Option RetryDecision
  pub first_attempt_at : Option ℤ

pub record AddWaiter : Type 0 where
  pub waiter_id : String
  pub waiter_event : Option Event
  pub requirements : Dict ℕ
  pub timeout : Option ℤ
  pub event_type : Class

pub data StepFunctionResult : Type 0 where
  worker_result : (result : Option Event) (fanned_out : Bool) → StepFunctionResult
  worker_failed : StepWorkerFailed → StepFunctionResult
  add_collected_event : (event_id : String) (event : Event) → StepFunctionResult
  delete_collected_event : (event_id : String) → StepFunctionResult
  add_waiter : AddWaiter → StepFunctionResult
  delete_waiter : (waiter_id : String) → StepFunctionResult
