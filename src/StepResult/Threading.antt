-- ===== src/StepResult/Threading.antt =====
-- What is threaded through the results of an execution (`_FanOutScope` and `_StepResultAcc` of
-- workflows/runtime/control_loop/reduce.py), and the effect of a returned event.
use llama_agents.Prelude.{
  ◌==◌, String, Bool, true, false, ◌&&◌, Option, none, some, List, [], ◌∷◌, ◌++◌, if◌then◌else◌,
  Dict, lookup, get_or, Result, from_option,
}
use llama_agents.Types.{
  Event, class_of, same_object, stop_event, input_required_event, World, BrokerState,
  InProgressState, InternalStepWorkerState, WorkflowCommand, queue_event, complete_run,
  publish_event, Error, key_error,
}
use llama_agents.Matching.{isinstance}
use llama_agents.Streams.{clear_collection_state}

pub record Scope : Type 0 where
  pub trigger_stack : List String
  pub fanned_out : Bool
  pub fan_out_stream_id : Option String
  pub emit_stack : List String

-- The state, the execution that the tick is about, and `_StepResultAcc`.
pub record Progress : Type 0 where
  pub state : BrokerState
  pub this_execution : InProgressState
  pub commands : List WorkflowCommand
  pub output_event_name : Option String
  pub step_no_longer_in_progress : Bool
  pub redelivery_scheduled : Bool

unfoldable pub get_worker : String → BrokerState → Result Error InternalStepWorkerState
get_worker name s = from_option (lookup name s.workers) (key_error name)

abbrev pub emit : List WorkflowCommand → Progress → Progress
emit commands acc = record acc { commands = acc.commands ++ commands }

-- `d.get(event_id, [])`
unfoldable pub collected_or_empty : String → Dict (List Event) → List Event
collected_or_empty event_id d = get_or (lookup event_id d) []

-- The negation of `_collect_buffer_diverged`.
unfoldable pub same_buffer : List Event → List Event → Bool
same_buffer [] [] = true
same_buffer (a ∷ live) (b ∷ snapshot) = same_object a b && same_buffer live snapshot
same_buffer _ _ = false

-- A write to the execution object, seen in the list that holds it.
unfoldable pub set_execution : InProgressState → List InProgressState → List InProgressState
set_execution p [] = []
set_execution p (q ∷ ps) =
    let rest = set_execution p ps in if q.worker_id == p.worker_id then p ∷ ps else q ∷ rest

-- What a stop event clears in each worker.
unfoldable pub clear_worker : InternalStepWorkerState → InternalStepWorkerState
clear_worker ws = record ws {
  queue = [];
  in_progress = [];
  collected_events = [];
  static_collect_events = [];
  collected_waiters = [];
}

unfoldable pub clear_workers : Dict InternalStepWorkerState → Dict InternalStepWorkerState
unfolding clear_worker
clear_workers [] = []
clear_workers ((name, ws) ∷ d) = (name, clear_worker ws) ∷ clear_workers d

unfoldable pub stop_run : BrokerState → BrokerState
unfolding clear_workers clear_collection_state
stop_run state =
    clear_collection_state
      (record state { is_running = false; workers = clear_workers state.workers })

unfoldable pub apply_event : World → Scope → Event → Progress → Progress
unfolding stop_run
apply_event w scope event acc =
    let named = record acc { output_event_name = some (w.class_text (class_of event)) } in
    let queued = queue_event event none acc.this_execution.recovery_counts scope.emit_stack ∷ [] in
    if isinstance w event stop_event
    then emit (publish_event event ∷ complete_run event ∷ [])
        (record named { state = stop_run acc.state })
    else if isinstance w event input_required_event
    then emit (publish_event event ∷ queued) named
    else emit queued named
