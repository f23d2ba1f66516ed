-- ===== src/Timers.antt =====
-- The ticks of timers and of the caller: cancel, publish, timeout, wakeup and waiter timeout, of
-- workflows/runtime/control_loop/reduce.py.
use llama_agents.Prelude.{
  ℤ, leb_ℤ, String, Bool, true, false, Option, none, some, List, [], ◌∷◌, map, find, is_some,
  is_empty, str_eq, if◌then◌else◌, Dict, lookup, sorted_keys, ok, ◌>>=◌,
}
use llama_agents.Types.{
  Event, workflow_cancelled, workflow_timed_out, workflow_cancelled_by_user, workflow_timeout_error,
  World, BrokerState, EventAttempt, InternalStepWorkerState, StepWorkerWaiter, StepId, root,
  step_key, publish_event, halt, deepcopy,
}
use llama_agents.Effects.{Reduced, ◌▷◌, done, in_worker}
use llama_agents.Dispatch.{add_or_enqueue_event, drain_eligible_queue}
use llama_agents.Streams.{clear_collection_state}
use llama_agents.AddEvent.Waiters.{resumed_attempt}
use llama_agents.StepResult.Threading.{get_worker}

unfoldable pub process_cancel_run_tick : BrokerState → Reduced
process_cancel_run_tick init =
    ok (deepcopy init, publish_event workflow_cancelled ∷ halt workflow_cancelled_by_user ∷ [])

unfoldable pub process_publish_event_tick : Event → BrokerState → Reduced
process_publish_event_tick event init = ok (init, publish_event event ∷ [])

-- The steps that have an execution, in the order of the workers.
unfoldable pub active_steps : Dict InternalStepWorkerState → List String
active_steps [] = []
active_steps ((step_name, ws) ∷ d) =
    let rest = active_steps d in if is_empty ws.in_progress then rest else step_name ∷ rest

unfoldable pub process_timeout_tick : ℤ → BrokerState → Reduced
unfolding active_steps clear_collection_state
process_timeout_tick timeout init =
    let active = active_steps init.workers in
    ok (
      clear_collection_state (record (deepcopy init) { is_running = false }),
      publish_event (workflow_timed_out timeout active)
          ∷ halt (workflow_timeout_error timeout active)
          ∷ [],
    )

-- `attempt.not_before is not None and attempt.not_before <= due`
unfoldable pub is_due : ℤ → EventAttempt → Bool
is_due due attempt = elim attempt.not_before [ none ↦ false | some time ↦ leb_ℤ time due ]

unfoldable pub make_eligible : ℤ → EventAttempt → EventAttempt
unfolding is_due
make_eligible due attempt =
    if is_due due attempt then record attempt { not_before = none } else attempt

unfoldable pub wake_queue : ℤ → InternalStepWorkerState → InternalStepWorkerState
unfolding make_eligible
wake_queue due ws = record ws { queue = map (make_eligible due) ws.queue }

module _ (w : World) (now_seconds : ℤ) where
  -- A loop over workers in the order of their names, which passes each to a body.
  unfoldable pub wake_workers : ℤ → List String → BrokerState → Reduced
  unfolding wake_queue drain_eligible_queue get_worker
  wake_workers due [] state = done state
  wake_workers due (step_name ∷ names) state = get_worker step_name state >>= λ ws.
      in_worker step_name state
        (drain_eligible_queue w now_seconds (root step_name) (wake_queue due ws))
      ▷ wake_workers due names

  unfoldable pub process_wakeup_tick : ℤ → BrokerState → Reduced
  unfolding wake_workers
  process_wakeup_tick due init =
      let state = deepcopy init in wake_workers due (sorted_keys state.workers) state

  -- `waiter.timed_out = True` on the first waiter of the id
  unfoldable pub mark_timed_out : String → List StepWorkerWaiter → List StepWorkerWaiter
  mark_timed_out waiter_id [] = []
  mark_timed_out waiter_id (x ∷ xs) =
      let rest = mark_timed_out waiter_id xs in
      if str_eq x.waiter_id waiter_id then record x { timed_out = true } ∷ xs else x ∷ rest

  unfoldable pub time_out_waiter :
      StepId → String → InternalStepWorkerState → StepWorkerWaiter → BrokerState → Reduced
  unfolding mark_timed_out resumed_attempt add_or_enqueue_event
  time_out_waiter step_id waiter_id ws waiter state = in_worker (step_key step_id) state (
      add_or_enqueue_event w now_seconds (resumed_attempt waiter) step_id
        (record ws { collected_waiters = mark_timed_out waiter_id ws.collected_waiters }))

  -- Nothing happens unless the waiter is there and no event has resolved it.
  unfoldable pub time_out_if_pending :
      StepId → String → InternalStepWorkerState → Option StepWorkerWaiter → BrokerState → Reduced
  unfolding time_out_waiter
  time_out_if_pending step_id waiter_id ws none state = done state
  time_out_if_pending step_id waiter_id ws (some waiter) state =
      if is_some waiter.resolved_event
      then done state
      else time_out_waiter step_id waiter_id ws waiter state

  unfoldable pub process_waiter_timeout_tick : StepId → String → BrokerState → Reduced
  unfolding time_out_if_pending
  process_waiter_timeout_tick step_id waiter_id init =
      let state = deepcopy init in
      elim (lookup (step_key step_id) state.workers) [
        | none ↦ done state
        | some ws ↦
            time_out_if_pending step_id waiter_id ws
              (find (λ x. str_eq x.waiter_id waiter_id) ws.collected_waiters) state
      ]
