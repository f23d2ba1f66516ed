-- ===== src/Silence/Ticks.antt =====
-- Every tick but a step's result queues no event (`_reduce_tick` of
-- workflows/runtime/control_loop/reduce.py).
use llama_agents.Prelude.{
  ℤ, String, Bool, true, false, ◌≡◌, refl, Option, none, some, List, [], ◌∷◌, All-append, arith,
  lookup, find, str_eq, ok, raise, if_case, is_some,
}
use llama_agents.Types.{
  BrokerState, InternalStepWorkerState, StepId, StepWorkerWaiter, WorkflowTick, World, root,
  step_key, deepcopy,
}
use llama_agents.Effects.{Reduced}
use llama_agents.Stuck.{check_idle_state, detect_stuck_streams}
use llama_agents.Timers.{
  process_wakeup_tick, wake_workers, wake_queue, time_out_waiter, time_out_if_pending,
  mark_timed_out, process_waiter_timeout_tick, process_cancel_run_tick, process_publish_event_tick,
  process_timeout_tick,
}
use llama_agents.AddEvent.Waiters.{resumed_attempt}
use llama_agents.Reduce.{
  schedule_idle, with_idle_check, process_idle_check_tick, fail_stuck, reduce_tick,
}
use llama_agents.Silence.{
  is_queue, NoQueue, IsSilent, returns_quietly, done_quietly, IsSilent-▷, IsSilent-bind,
  IsSilent-option, IsSilent-if, IsSilent-in_worker, dispatch-IsSilent, drain-IsSilent,
}
use llama_agents.Silence.Arrivals.{add_event-IsSilent}

-- A tick with the results of a step's execution.
abbrev pub is_result : WorkflowTick → Bool
is_result (WorkflowTick.step_result tick) = true
is_result _ = false

idle-quiet : (s : BrokerState) → NoQueue (schedule_idle s)
unfolding schedule_idle
idle-quiet s = if_case (λ cs. NoQueue cs) (check_idle_state s) _ _ (λ h. (refl, tt)) (λ h. tt)

with_idle_check-IsSilent : (m : Reduced) → IsSilent m → IsSilent (with_idle_check m)
unfolding with_idle_check
with_idle_check-IsSilent (ok (s, cs)) h =
    returns_quietly s _ (All-append (λ c. is_queue c ≡ false) cs _ h.quiet (idle-quiet s))
with_idle_check-IsSilent (raise e) h = record { quiet = tt }

idle_check-IsSilent : (s : BrokerState) → IsSilent (process_idle_check_tick s)
unfolding process_idle_check_tick fail_stuck
idle_check-IsSilent s =
    IsSilent-if (check_idle_state s) _ _
      (IsSilent-option (detect_stuck_streams s) _ _ (returns_quietly s _ (refl, tt))
        (λ stuck. returns_quietly _ _ (refl, (refl, tt))))
      (done_quietly s)

module _ (w : World) (now : ℤ) where
  wake-IsSilent :
      (due : ℤ) (names : List String) (s : BrokerState) → IsSilent (wake_workers w now due names s)
  unfolding wake_workers
  wake-IsSilent due [] s = done_quietly s
  wake-IsSilent due (name ∷ names) s = IsSilent-bind _ _ (λ ws.
      IsSilent-▷ _ (wake_workers w now due names)
        (IsSilent-in_worker name s _ (drain-IsSilent w now (root name) (wake_queue due ws)))
        (λ s'. wake-IsSilent due names s'))

  pending-IsSilent :
      (step_id : StepId) (waiter_id : String) (ws : InternalStepWorkerState)
      (waiter : Option StepWorkerWaiter) (s : BrokerState)
      → IsSilent (time_out_if_pending w now step_id waiter_id ws waiter s)
  unfolding time_out_if_pending time_out_waiter
  pending-IsSilent step_id waiter_id ws none s = done_quietly s
  pending-IsSilent step_id waiter_id ws (some waiter) s =
      IsSilent-if (is_some waiter.resolved_event) _ _ (done_quietly s) (
        IsSilent-in_worker (step_key step_id) s _ (
          dispatch-IsSilent w now (resumed_attempt waiter) step_id (record ws {
            collected_waiters = mark_timed_out w now waiter_id ws.collected_waiters;
          })))

  waiter_timeout-IsSilent :
      (step_id : StepId) (waiter_id : String) (s : BrokerState)
      → IsSilent (process_waiter_timeout_tick w now step_id waiter_id s)
  unfolding process_waiter_timeout_tick deepcopy
  waiter_timeout-IsSilent step_id waiter_id s =
      IsSilent-option (lookup (step_key step_id) (deepcopy s).workers) _ _
        (done_quietly (deepcopy s))
        (λ ws.
          pending-IsSilent step_id waiter_id ws
            (find (λ x. str_eq x.waiter_id waiter_id) ws.collected_waiters) (deepcopy s))

  pub reduce_tick-IsSilent :
      (run_id : Option String) (tick : WorkflowTick) (s : BrokerState)
      → is_result tick ≡ false
      → IsSilent (reduce_tick w run_id tick s now)
  unfolding reduce_tick process_cancel_run_tick process_publish_event_tick process_timeout_tick
      process_wakeup_tick deepcopy
  reduce_tick-IsSilent run_id (WorkflowTick.step_result tick) s h = absurd (ground (arith, h))
  reduce_tick-IsSilent run_id (WorkflowTick.add_event tick) s h =
      with_idle_check-IsSilent _ (add_event-IsSilent w now tick s)
  reduce_tick-IsSilent run_id WorkflowTick.cancel_run s h =
      with_idle_check-IsSilent (process_cancel_run_tick s) (record { quiet = (refl, (refl, tt)) })
  reduce_tick-IsSilent run_id WorkflowTick.idle_release s h = returns_quietly s _ (refl, tt)
  reduce_tick-IsSilent run_id (WorkflowTick.publish event) s h =
      with_idle_check-IsSilent (process_publish_event_tick event s) (record { quiet = (refl, tt) })
  reduce_tick-IsSilent run_id (WorkflowTick.timeout timeout) s h =
      with_idle_check-IsSilent (process_timeout_tick timeout s)
        (record { quiet = (refl, (refl, tt)) })
  reduce_tick-IsSilent run_id (WorkflowTick.waiter_timeout step_id waiter_id) s h =
      with_idle_check-IsSilent _ (waiter_timeout-IsSilent step_id waiter_id s)
  reduce_tick-IsSilent run_id WorkflowTick.idle_check s h = idle_check-IsSilent s
  reduce_tick-IsSilent run_id (WorkflowTick.wakeup due) s h =
      with_idle_check-IsSilent _ (wake-IsSilent due _ (deepcopy s))
