-- ===== src/StepResult/Apply.antt =====
-- `_apply_step_result` of workflows/runtime/control_loop/reduce.py: the effect of one returned result
-- on the state, and the accumulator that is threaded through the results.
use mathlib.Core.Option
use llama_agents.Prelude.{
  ltb, String, Bool, true, false, not, Option, none, some, List, [], ◌∷◌, ◌++◌, length,
  remove_first, str_eq, if◌then◌else◌, Dict, assign, delete, is_empty, Result, ok, ◌>>=◌,
}
use llama_agents.Types.{
  Event, none_type, World, InProgressState, InternalStepWorkerState, StepWorkerWaiter,
  StepWorkerFailed, AddWaiter, StepFunctionResult, TickStepResult, step_key, WorkflowCommand,
  run_worker, publish_event, schedule_waiter_timeout, Error,
}
use llama_agents.Effects.{put_worker}
use llama_agents.Failure.{Outcome, outcome, queue_catch_error_event, give_up_commands, wakeups}
use llama_agents.StepResult.Threading.{
  Progress, Scope, apply_event, collected_or_empty, emit, get_worker, set_execution,
}

module _ (w : World) (run_id : Option String) (tick : TickStepResult) where
  unfoldable pub apply_outcome :
      StepWorkerFailed → InternalStepWorkerState → Outcome → Progress → Progress
  unfolding queue_catch_error_event give_up_commands wakeups put_worker
  apply_outcome failure worker_state (Outcome.retry attempt) acc =
      emit (wakeups attempt) (record acc {
        state =
            put_worker (step_key tick.step_id)
              (record worker_state { queue = attempt ∷ worker_state.queue }) acc.state;
        redelivery_scheduled = true;
      })
  apply_outcome failure worker_state (Outcome.recover handler count) acc =
      emit
        (queue_catch_error_event w run_id (step_key tick.step_id) failure acc.this_execution
            tick.event handler count
          ∷ [])
        (record acc { redelivery_scheduled = true })
  apply_outcome failure worker_state Outcome.give_up acc =
      emit
        (give_up_commands w run_id (step_key tick.step_id) failure acc.this_execution tick.step_id)
        (record acc { state = record acc.state { is_running = false } })

  unfoldable pub apply_failure : StepWorkerFailed → InternalStepWorkerState → Progress → Progress
  unfolding apply_outcome outcome
  apply_failure failure worker_state acc =
      apply_outcome failure worker_state
        (outcome w run_id (step_key tick.step_id) failure acc.this_execution acc.state.config
          worker_state.config.retry_policy)
        acc

  -- The buffer is ahead of the snapshot: the execution is rerun, and nothing is added.
  unfoldable pub rerun_collect :
      Event → InternalStepWorkerState → Dict (List Event) → Progress → Progress
  unfolding set_execution put_worker
  rerun_collect event worker_state collected acc =
      let p = acc.this_execution in
      let fresh : InProgressState = record p {
        shared_state = record p.shared_state { collected_events = collected };
      } in
      emit (run_worker tick.step_id event p.worker_id p.bound_events ∷ []) (record acc {
        state =
            put_worker (step_key tick.step_id)
              (record worker_state {
                collected_events = collected;
                in_progress = set_execution fresh worker_state.in_progress;
              })
              acc.state;
        this_execution = fresh;
        step_no_longer_in_progress = false;
      })

  -- `len(collected_events) > len(snapshot_events)`
  unfoldable pub is_ahead : String → InternalStepWorkerState → InProgressState → Bool
  unfolding collected_or_empty
  is_ahead event_id worker_state p =
      ltb (length (collected_or_empty event_id p.shared_state.collected_events))
        (length (collected_or_empty event_id worker_state.collected_events))

  unfoldable pub apply_add_collected :
      String → Event → InternalStepWorkerState → Progress → Progress
  unfolding rerun_collect is_ahead collected_or_empty put_worker
  apply_add_collected event_id event worker_state acc =
      let live = collected_or_empty event_id worker_state.collected_events in
      if is_ahead event_id worker_state acc.this_execution
      then rerun_collect event worker_state (assign event_id live worker_state.collected_events) acc
      else record acc {
        state =
            put_worker (step_key tick.step_id)
              (record worker_state {
                collected_events =
                    assign event_id (live ++ (event ∷ [])) worker_state.collected_events;
              })
              acc.state;
      }

  unfoldable pub new_waiter : AddWaiter → InProgressState → StepWorkerWaiter
  new_waiter added p = record {
    waiter_id = added.waiter_id;
    event = p.event;
    waiting_for_event = added.event_type;
    requirements = added.requirements;
    has_requirements = not (is_empty added.requirements);
    resolved_event = none;
    bound_events = p.bound_events;
    timed_out = false;
    scope_path = p.scope_path;
    collection_release_payload = p.shared_state.collection_release_payload;
    work_item_id = p.work_item_id;
  }

  -- The list with the waiter in place of the first of its id, if there is one.
  unfoldable pub replace_waiter :
      StepWorkerWaiter → List StepWorkerWaiter → Option (List StepWorkerWaiter)
  replace_waiter waiter [] = none
  replace_waiter waiter (x ∷ xs) =
      let rest = Option.map (◌∷◌ x) (replace_waiter waiter xs) in
      if str_eq x.waiter_id waiter.waiter_id then some (waiter ∷ xs) else rest

  unfoldable pub waiter_commands : AddWaiter → List WorkflowCommand
  waiter_commands added =
      (elim added.waiter_event [ none ↦ [] | some event ↦ publish_event event ∷ [] ])
      ++ (elim added.timeout [
        | none ↦ []
        | some timeout ↦ schedule_waiter_timeout tick.step_id added.waiter_id timeout ∷ []
      ])

  unfoldable pub apply_add_waiter : AddWaiter → InternalStepWorkerState → Progress → Progress
  unfolding new_waiter replace_waiter waiter_commands put_worker
  apply_add_waiter added worker_state acc =
      let waiter = new_waiter added acc.this_execution in
      let write = λ (waiters : List StepWorkerWaiter). record acc {
        state =
            put_worker (step_key tick.step_id) (record worker_state { collected_waiters = waiters })
              acc.state;
      } in
      elim (replace_waiter waiter worker_state.collected_waiters) [
        | none ↦
            emit (waiter_commands added) (write (worker_state.collected_waiters ++ (waiter ∷ [])))
        | some replaced ↦ write replaced
      ]

  -- The deletions take effect only for an execution that completed.
  unfoldable pub delete_if_complete : Bool → InternalStepWorkerState → Progress → Progress
  unfolding put_worker
  delete_if_complete did_complete_step worker_state acc =
      if did_complete_step
      then record acc { state = put_worker (step_key tick.step_id) worker_state acc.state }
      else acc

  unfoldable pub apply_in_worker :
      Bool → StepFunctionResult → InternalStepWorkerState → Progress → Progress
  unfolding apply_failure apply_add_collected apply_add_waiter delete_if_complete
  apply_in_worker did_complete (StepFunctionResult.worker_result _ _) ws acc = acc
  apply_in_worker did_complete (StepFunctionResult.worker_failed failure) ws acc =
      apply_failure failure ws acc
  apply_in_worker did_complete (StepFunctionResult.add_collected_event event_id event) ws acc =
      apply_add_collected event_id event ws acc
  apply_in_worker did_complete (StepFunctionResult.delete_collected_event event_id) ws acc =
      delete_if_complete did_complete
        (record ws { collected_events = delete event_id ws.collected_events }) acc
  apply_in_worker did_complete (StepFunctionResult.add_waiter added) ws acc =
      apply_add_waiter added ws acc
  apply_in_worker did_complete (StepFunctionResult.delete_waiter waiter_id) ws acc =
      delete_if_complete did_complete
        (record ws {
          collected_waiters = remove_first (λ x. str_eq x.waiter_id waiter_id) ws.collected_waiters;
        })
        acc

  module _ (scope : Scope) (did_complete_step : Bool) where
    unfoldable pub apply_step_result : StepFunctionResult → Progress → Result Error Progress
    unfolding apply_event apply_in_worker get_worker
    apply_step_result (StepFunctionResult.worker_result none _) acc =
        ok (record acc { output_event_name = some (w.class_text none_type) })
    apply_step_result (StepFunctionResult.worker_result (some event) _) acc =
        ok (apply_event w scope event acc)
    apply_step_result result acc = get_worker (step_key tick.step_id) acc.state >>= λ ws.
        ok (apply_in_worker did_complete_step result ws acc)

    unfoldable pub apply_step_results : List StepFunctionResult → Progress → Result Error Progress
    unfolding apply_step_result
    apply_step_results [] acc = ok acc
    apply_step_results (result ∷ results) acc =
        apply_step_result result acc >>= apply_step_results results
