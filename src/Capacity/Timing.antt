-- ===== src/Capacity/Timing.antt =====
-- The timed ticks, the idle check and the rewind of a resumed run
-- (workflows/runtime/control_loop/reduce.py) keep the worker slots.
use llama_agents.Prelude.{
  ℤ, inl, inr, String, Option, none, some, List, [], ◌∷◌, Option-cases, lookup, find, is_some,
  str_eq,
}
use llama_agents.Types.{
  Exception, BrokerState, InternalStepWorkerState, StepWorkerWaiter, StepId, World, deepcopy,
  step_key, root,
}
use llama_agents.Effects.{Keeps, Gives, done, Gives-▷, Gives-map, Keeps-▷, Keeps-if, Keeps-Gives}
use llama_agents.AddEvent.Waiters.{resumed_attempt}
use llama_agents.Timers.{
  wake_queue, wake_workers, mark_timed_out, time_out_waiter, time_out_if_pending,
  process_waiter_timeout_tick,
}
use llama_agents.Reduce.{
  fail_stuck, process_idle_check_tick, rewind_worker, rearm_worker, rewind_workers,
  rewind_in_progress,
}
use llama_agents.Stuck.{check_idle_state, detect_stuck_streams}
use llama_agents.Invariant.Local.{
  AllWorkers-lookup, Keeps-get_worker, in_worker-AllWorkers, deepcopy-AllWorkers,
}
use llama_agents.Capacity.Slots.{IsValid, AllValid, SlotsFit-nil}
use llama_agents.Capacity.Dispatching.{add_or_enqueue_event-IsValid}
use llama_agents.Capacity.Finishing.{copy_worker-IsValid}
use llama_agents.Capacity.Completing.{drain-IsValid}

module _ (w : World) (now : ℤ) where
  pub wake_workers-AllValid :
      (due : ℤ) (names : List String) (s : BrokerState)
      → AllValid s
      → Keeps AllValid (wake_workers w now due names s)
  unfolding wake_workers
  wake_workers-AllValid due [] s h = h
  wake_workers-AllValid due (name ∷ names) s h =
      Keeps-get_worker IsValid AllValid name s _ h (λ ws v.
        Keeps-▷ AllValid AllValid _ _
          (Keeps-Gives AllValid _ (
            in_worker-AllWorkers IsValid name s _ h
              (drain-IsValid w now (root name) (wake_queue due ws) (woken due ws v))))
          (wake_workers-AllValid due names))
    where
      woken : (due : ℤ) (ws : InternalStepWorkerState) → IsValid ws → IsValid (wake_queue due ws)
      woken due ws v = v

  time_out_if_pending-AllValid :
      (step_id : StepId) (waiter_id : String) (ws : InternalStepWorkerState)
      (found : Option StepWorkerWaiter) (s : BrokerState)
      → AllValid s
      → IsValid ws
      → Keeps AllValid (time_out_if_pending w now step_id waiter_id ws found s)
  unfolding time_out_if_pending time_out_waiter
  time_out_if_pending-AllValid step_id waiter_id ws none s h v = h
  time_out_if_pending-AllValid step_id waiter_id ws (some waiter) s h v =
      Keeps-if AllValid (is_some waiter.resolved_event) (done s) _ (λ resolved. h)
        (λ pending. Keeps-Gives AllValid _ (
          in_worker-AllWorkers IsValid (step_key step_id) s _ h (
            Gives-map _ IsValid _ (λ ws' k. k.0)
              (add_or_enqueue_event-IsValid w now (resumed_attempt waiter) step_id
                (record ws {
                  collected_waiters = mark_timed_out w now waiter_id ws.collected_waiters;
                })
                v))))

  pub waiter_timeout-AllValid :
      (step_id : StepId) (waiter_id : String) (s : BrokerState)
      → AllValid s
      → Keeps AllValid (process_waiter_timeout_tick w now step_id waiter_id s)
  unfolding process_waiter_timeout_tick
  waiter_timeout-AllValid step_id waiter_id s h =
      let h' = deepcopy-AllWorkers IsValid copy_worker-IsValid s h in
      elim (Option-cases (lookup (step_key step_id) (deepcopy s).workers)) [
        | inl missing ↦ rw (missing, process_waiter_timeout_tick) h'
        | inr (ws, e) ↦
            rw (e, process_waiter_timeout_tick)
              (time_out_if_pending-AllValid step_id waiter_id ws
                (find (λ x. str_eq x.waiter_id waiter_id) ws.collected_waiters) (deepcopy s) h'
                (AllWorkers-lookup IsValid (step_key step_id) (deepcopy s) ws h' e))
      ]

  rewind_workers-AllValid :
      (names : List String) (s : BrokerState)
      → AllValid s
      → Keeps AllValid (rewind_workers w now names s)
  unfolding rewind_workers
  rewind_workers-AllValid [] s h = h
  rewind_workers-AllValid (name ∷ names) s h = Keeps-get_worker IsValid AllValid name s _ h (λ ws v.
      Keeps-▷ AllValid AllValid _ _
        (Keeps-Gives AllValid _ (
          in_worker-AllWorkers IsValid name s _ h (
            Gives-▷ IsValid IsValid _ rearm_worker
              (drain-IsValid w now (root name) (rewind_worker ws) (rewound ws)) rearmed)))
        (rewind_workers-AllValid names))
    where
      rewound : (ws : InternalStepWorkerState) → IsValid (rewind_worker ws)
      rewound ws = SlotsFit-nil ws.config.num_workers

      rearmed : (ws : InternalStepWorkerState) → IsValid ws → Gives IsValid (rearm_worker ws)
      rearmed ws v = v

  -- A resumed run starts with valid slots.
  pub rewind_in_progress-AllValid :
      (s : BrokerState) → AllValid s → Keeps AllValid (rewind_in_progress w now s)
  unfolding rewind_in_progress
  rewind_in_progress-AllValid s h =
      rewind_workers-AllValid _ (deepcopy s) (deepcopy-AllWorkers IsValid copy_worker-IsValid s h)

  pub idle_check-AllValid :
      (s : BrokerState) → AllValid s → Keeps AllValid (process_idle_check_tick s)
  unfolding process_idle_check_tick
  idle_check-AllValid s h =
      Keeps-if AllValid (check_idle_state s) _ (done s)
        (λ idle. elim (Option-cases (detect_stuck_streams s)) [
          | inl healthy ↦ rw healthy h
          | inr (stuck, e) ↦ rw e (fail_stuck-AllValid stuck)
        ])
        (λ busy. h)
    where
      fail_stuck-AllValid : (stuck : String × Exception) → Keeps AllValid (fail_stuck s stuck)
      fail_stuck-AllValid stuck = deepcopy-AllWorkers IsValid copy_worker-IsValid s h
