-- ===== src/StepResult.antt =====
-- One finished execution: `_process_step_result_tick` and its parts, of
-- workflows/runtime/control_loop/reduce.py. The child `Apply` has the effect of one
-- result, `Threading` what passes from one to the next.
pub mod Threading
pub mod Apply
use llama_agents.Prelude.{
  ℕ, zero, suc, ◌+◌, ◌==◌, ℤ, pos, negsuc, ◌+ℤ◌, String, Bool, true, false, not, ◌&&◌, Option, none,
  some, List, [], ◌∷◌, ◌++◌, map, any, find, last?, length, remove_first, sum, if◌then◌else◌, Dict,
  lookup, assign, get_or, decimal, Result, ok, raise, ◌>>=◌, from_option, is_empty,
}
use llama_agents.Types.{
  Event, class_of, step_state_changed, StepState, stop_event, World, BrokerState, CollectionBinding,
  CollectionStreamInstance, InProgressState, InternalStepWorkerState, StepWorkerState,
  StepFunctionResult, TickStepResult, StepId, step_key, WorkflowCommand, run_worker, publish_event,
  indicates_exit, deepcopy, bindings_for_source, Error, key_error, value_error,
}
use llama_agents.Effects.{Emitting, Reduced, ◌▷◌, done, in_worker, prepend, put_worker}
use llama_agents.Matching.{isinstance}
use llama_agents.Dispatch.{drain_eligible_queue}
use llama_agents.Streams.{
  mint_stream_id, count_accepting_steps, adjust_open_work_items, close_collection_stream,
}
use llama_agents.Classify.{WorkDisposition, classify_work_item, is_worker_result}
use Apply.{apply_step_results}
use Threading.{Scope, Progress, same_buffer, get_worker, set_execution, collected_or_empty}

unfoldable pub find_in_progress : InternalStepWorkerState → ℕ → Result Error InProgressState
find_in_progress worker_state worker_id =
    from_option (find (λ p. p.worker_id == worker_id) worker_state.in_progress)
      (value_error worker_id)

-- A result that consumes a buffer which changed since the execution started.
unfoldable pub is_stale : InternalStepWorkerState → InProgressState → StepFunctionResult → Bool
unfolding same_buffer collected_or_empty
is_stale worker_state this_execution (StepFunctionResult.delete_collected_event event_id) = not (
    same_buffer (collected_or_empty event_id worker_state.collected_events)
      (collected_or_empty event_id this_execution.shared_state.collected_events))
is_stale worker_state this_execution _ = false

unfoldable pub refresh_snapshot : InternalStepWorkerState → InProgressState → InProgressState
refresh_snapshot worker_state this_execution = record this_execution {
  shared_state = record this_execution.shared_state {
    collected_events = worker_state.collected_events;
  };
}

-- The execution with its snapshot refreshed, if its results are invalid.
unfoldable pub rerun_for_stale_collect_buffer :
    TickStepResult → InternalStepWorkerState → InProgressState → Option InProgressState
unfolding is_stale refresh_snapshot
rerun_for_stale_collect_buffer tick worker_state this_execution =
    if any (is_stale worker_state this_execution) tick.result
    then some (refresh_snapshot worker_state this_execution)
    else none

unfoldable pub has_fanned_out : StepFunctionResult → Bool
has_fanned_out (StepFunctionResult.worker_result _ fanned_out) = fanned_out
has_fanned_out _ = false

unfoldable pub fan_out_scope :
    World → BrokerState → String → InProgressState → Bool → BrokerState × Scope
fan_out_scope w state step_name this_execution fanned_out =
    let trigger_stack = this_execution.scope_path in
    let (minted, stream_id) = mint_stream_id w state trigger_stack step_name in
    if fanned_out
    then (
      minted,
      record {
        trigger_stack = trigger_stack;
        fanned_out = true;
        fan_out_stream_id = some stream_id;
        emit_stack = trigger_stack ++ (stream_id ∷ []);
      },
    )
    else (
      state,
      record {
        trigger_stack = trigger_stack;
        fanned_out = false;
        fan_out_stream_id = none;
        emit_stack = trigger_stack;
      },
    )

-- The events that the execution emitted, less stop events.
unfoldable pub emitted_non_stop : World → List StepFunctionResult → List Event
emitted_non_stop w [] = []
emitted_non_stop w (StepFunctionResult.worker_result (some event) _ ∷ results) =
    let rest = emitted_non_stop w results in
    if isinstance w event stop_event then rest else event ∷ rest
emitted_non_stop w (_ ∷ results) = emitted_non_stop w results

-- One work item for each step that accepts each event.
unfoldable pub successors : World → BrokerState → List Event → ℕ
successors w state events = sum (map (λ e. count_accepting_steps w state (class_of e)) events)

abbrev pub binding_ids : List CollectionBinding → List String
binding_ids = map (λ b. b.id)

module _ (w : World) (now_seconds : ℤ) where
  -- The `FANNED_OUT` branch, for the id of the stream that was minted.
  unfoldable pub open_child_stream : String → Scope → List Event → String → BrokerState → Reduced
  unfolding successors adjust_open_work_items close_collection_stream
  open_child_stream step_name scope emitted stream_id state =
      let accepting = binding_ids (bindings_for_source state.config step_name) in
      let seed = successors w state emitted in
      let stream : CollectionStreamInstance = record {
        stream_id = stream_id;
        source_step = step_name;
        scope_path = scope.trigger_stack;
        open_work_items = pos seed;
        accepting_binding_ids = accepting;
      } in
      let opened : BrokerState = record state { streams = assign stream_id stream state.streams } in
      adjust_open_work_items w now_seconds (last? scope.trigger_stack)
        (pos (length accepting) +ℤ negsuc 0) opened
      ▷ λ state'.
          if seed == 0 then close_collection_stream w now_seconds stream_id state' else done state'

  unfoldable pub resolve_disposition :
      WorkDisposition → String → Scope → List Event → BrokerState → Reduced
  unfolding open_child_stream
  resolve_disposition WorkDisposition.fanned_out step_name scope emitted state =
      elim scope.fan_out_stream_id [
        | none ↦ done state
        | some stream_id ↦ open_child_stream step_name scope emitted stream_id state
      ]
  resolve_disposition WorkDisposition.completed step_name scope emitted state =
      adjust_open_work_items w now_seconds (last? scope.trigger_stack)
        (pos (successors w state emitted) +ℤ negsuc 0) state
  resolve_disposition WorkDisposition.absorbed step_name scope emitted state =
      adjust_open_work_items w now_seconds (last? scope.trigger_stack) (negsuc 0) state
  resolve_disposition _ step_name scope emitted state = done state

  unfoldable pub resolve_work_item_in_stream : TickStepResult → Progress → Scope → Reduced
  unfolding classify_work_item resolve_disposition emitted_non_stop
  resolve_work_item_in_stream tick acc scope =
      classify_work_item tick acc.commands (not acc.step_no_longer_in_progress)
        acc.redelivery_scheduled scope.fanned_out
      >>= λ disposition.
          resolve_disposition disposition (step_key tick.step_id) scope
            (emitted_non_stop w tick.result) acc.state

  -- The `NOT_RUNNING` transition of the execution.
  unfoldable pub finished : TickStepResult → Option String → WorkflowCommand
  finished tick output_event_name = publish_event (
      step_state_changed StepState.not_running (step_key tick.step_id)
        (w.class_text (class_of tick.event)) output_event_name (decimal tick.worker_id))

  -- Drops the execution, which is the first with its worker id, unless it is to be rerun.
  unfoldable pub drop_finished :
      TickStepResult → Progress → InternalStepWorkerState → InternalStepWorkerState
  drop_finished tick acc ws =
      if acc.step_no_longer_in_progress
      then record ws {
        in_progress = remove_first (λ p. p.worker_id == tick.worker_id) ws.in_progress;
      }
      else ws

  unfoldable pub announce : TickStepResult → Progress → List WorkflowCommand → List WorkflowCommand
  unfolding finished
  announce tick acc commands =
      if acc.step_no_longer_in_progress
      then finished tick acc.output_event_name ∷ commands
      else commands

  -- The execution is dropped, and what is queued is dispatched unless the run ends.
  unfoldable pub finalize : TickStepResult → Progress → BrokerState → List WorkflowCommand → Reduced
  unfolding drop_finished announce drain_eligible_queue get_worker
  finalize tick acc state commands =
      let step_name = step_key tick.step_id in
      get_worker step_name state >>= λ worker_state.
      let kept = drop_finished tick acc worker_state in
      prepend (announce tick acc commands) (
        if any indicates_exit commands
        then done (put_worker step_name kept state)
        else in_worker step_name state (drain_eligible_queue w now_seconds tick.step_id kept))

  -- The phases behind the stale-buffer test.
  unfoldable pub complete_execution :
      Option String → TickStepResult → InProgressState → BrokerState → Reduced
  unfolding fan_out_scope has_fanned_out apply_step_results resolve_work_item_in_stream finalize
  complete_execution run_id tick this_execution state =
      let (scoped, scope) =
        fan_out_scope w state (step_key tick.step_id) this_execution
          (any has_fanned_out tick.result) in
      apply_step_results w run_id tick scope (any is_worker_result tick.result) tick.result
        (record {
          state = scoped;
          this_execution = this_execution;
          commands = [];
          output_event_name = none;
          step_no_longer_in_progress = true;
          redelivery_scheduled = false;
        })
      >>= λ acc. resolve_work_item_in_stream tick acc scope >>= λ (state', commands).
          finalize tick acc state' (acc.commands ++ commands)

  unfoldable pub process_step_result_tick : Option String → TickStepResult → BrokerState → Reduced
  unfolding find_in_progress rerun_for_stale_collect_buffer complete_execution get_worker
  process_step_result_tick run_id tick init =
      let state = deepcopy init in
      let step_name = step_key tick.step_id in
      get_worker step_name state >>= λ worker_state.
      find_in_progress worker_state tick.worker_id >>= λ this_execution.
      elim (rerun_for_stale_collect_buffer tick worker_state this_execution) [
        | none ↦ complete_execution run_id tick this_execution state
        | some refreshed ↦ ok (
          put_worker step_name
              (record worker_state {
                in_progress = set_execution refreshed worker_state.in_progress;
              })
              state,
          run_worker tick.step_id this_execution.event this_execution.worker_id
                this_execution.bound_events
              ∷ [],
        )
      ]
