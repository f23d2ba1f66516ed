-- ===== src/Types/EventTypes.antt =====
-- Events and exceptions (workflows/events.py, workflows/errors.py). An event of the program is an
-- object with an identity and a class; those that the control loop builds have their fields.
use llama_agents.Prelude.{
  ℕ, ℤ, String, Bool, false, ◌&&◌, Option, List, [], ◌∷◌, ◌==◌, str_eq, leb_ℤ,
}
use llama_agents.Types.Classes.{
  Class, collection_release_event, step_failed_event, workflow_failed_event,
  workflow_timed_out_event, workflow_cancelled_event, idle_released_event, workflow_idle_event,
  unhandled_event, step_state_changed_event,
}

pub data StepState : Type 0 where
  preparing running not_running : StepState

-- What the text of a `WorkflowRuntimeError` or of another error that the loop makes is filled with.
pub data Fault : Type 0 where
  orphaned_release : (step_name binding_id stream_id : String) → Fault
  open_streams : (details : List (String × String × ℤ)) → Fault
  targeted_collect : (event_type : Class) (step_name : String) → Fault
  unknown_binding : (binding_id stream_id : String) → Fault
  unclassified : (step_name : String) → Fault

pub data Exception : Type 0 where
  step_exception : ℕ → Exception
  workflow_runtime_error : Fault → Exception
  workflow_timeout_error : (timeout : ℤ) (active_steps : List String) → Exception
  workflow_cancelled_by_user : Exception

mutual
  pub data Event : Type 0 where
    object : (identity : ℕ) (class : Class) → Event
    step_failed :
        (step_name : String) (input_event : Event) (exception : Exception) (attempts : ℕ)
        (elapsed_seconds failed_at : ℤ)
        → Event
    collection_release : (events : Events) (stream_id binding_id : String) → Event
    workflow_failed :
        (step_name : String) (exception : Exception) (attempts : Option ℕ)
        (elapsed_seconds : Option ℤ)
        → Event
    workflow_timed_out : (timeout : ℤ) (active_steps : List String) → Event
    workflow_cancelled : Event
    idle_released : Event
    workflow_idle : Event
    unhandled :
        (event_type qualified_name : String) (step_name : Option String) (idle : Bool) → Event
    step_state_changed :
        (step_state : StepState) (name input_event_name : String)
        (output_event_name : Option String) (worker_id : String)
        → Event

  pub data Events : Type 0 where
    no_events : Events
    an_event : Event → Events → Events

unfoldable pub to_events : List Event → Events
to_events [] = no_events
to_events (e ∷ es) = an_event e (to_events es)

-- `type(event)`
unfoldable pub class_of : Event → Class
class_of (object identity class) = class
class_of (step_failed _ _ _ _ _ _) = step_failed_event
class_of (collection_release _ _ _) = collection_release_event
class_of (workflow_failed _ _ _ _) = workflow_failed_event
class_of (workflow_timed_out _ _) = workflow_timed_out_event
class_of workflow_cancelled = workflow_cancelled_event
class_of idle_released = idle_released_event
class_of workflow_idle = workflow_idle_event
class_of (unhandled _ _ _ _) = unhandled_event
class_of (step_state_changed _ _ _ _ _) = step_state_changed_event

-- `a is b`. An object has its identity; a failure is told by its step, input and time, a release by
-- its stream and binding. Events that are only published never stand in a buffer.
unfoldable pub same_object : Event → Event → Bool
same_object (object i _) (object j _) = i == j
same_object (step_failed s e _ n _ t) (step_failed s' e' _ n' _ t') =
    let inner = same_object e e' in str_eq s s' && inner && n == n' && leb_ℤ t t' && leb_ℤ t' t
same_object (collection_release _ s b) (collection_release _ s' b') = str_eq s s' && str_eq b b'
same_object _ _ = false
