-- ===== src/Capacity/Ticks.antt =====
-- Every tick of the reducer keeps the worker slots (_reduce_tick and rebuild_state_from_ticks of
-- workflows/runtime/control_loop/reduce.py).
use llama_agents.Prelude.{ℤ, String, Option, ok, raise}
use llama_agents.Types.{BrokerState, WorkflowTick, World, deepcopy}
use llama_agents.Effects.{Reduced, Keeps}
use llama_agents.Streams.{clear_collection_state}
use llama_agents.Timers.{
  process_cancel_run_tick, process_publish_event_tick, process_timeout_tick, process_wakeup_tick,
}
use llama_agents.Reduce.{with_idle_check, reduce_tick}
use llama_agents.Invariant.Local.{deepcopy-AllWorkers}
use llama_agents.Invariant.Adding.{process_add_event_tick-AllWorkers}
use llama_agents.Capacity.Slots.{IsValid, AllValid}
use llama_agents.Capacity.Finishing.{copy_worker-IsValid}
use llama_agents.Capacity.Completing.{slots, process_step_result_tick-AllValid}
use llama_agents.Capacity.Timing.{
  wake_workers-AllValid, waiter_timeout-AllValid, idle_check-AllValid,
}

module _ (w : World) (now : ℤ) where
  with_idle_check-AllValid : (m : Reduced) → Keeps AllValid m → Keeps AllValid (with_idle_check m)
  unfolding with_idle_check
  with_idle_check-AllValid (ok r) h = h
  with_idle_check-AllValid (raise e) h = tt

  -- Whatever the tick and the clock, the executions of each step stay within its workers, each on a
  -- worker of its own.
  pub reduce_tick-AllValid :
      (run_id : Option String) (tick : WorkflowTick) (s : BrokerState)
      → AllValid s
      → Keeps AllValid (reduce_tick w run_id tick s now)
  unfolding reduce_tick process_cancel_run_tick process_publish_event_tick process_timeout_tick
      clear_collection_state process_wakeup_tick
  reduce_tick-AllValid run_id (WorkflowTick.step_result tick) s h =
      with_idle_check-AllValid _ (process_step_result_tick-AllValid w now run_id tick s h)
  reduce_tick-AllValid run_id (WorkflowTick.add_event tick) s h =
      with_idle_check-AllValid _
        (process_add_event_tick-AllWorkers w now IsValid (slots w now) tick s h)
  reduce_tick-AllValid run_id WorkflowTick.cancel_run s h =
      with_idle_check-AllValid (process_cancel_run_tick s)
        (deepcopy-AllWorkers IsValid copy_worker-IsValid s h)
  reduce_tick-AllValid run_id WorkflowTick.idle_release s h = h
  reduce_tick-AllValid run_id (WorkflowTick.publish event) s h =
      with_idle_check-AllValid (process_publish_event_tick event s) h
  reduce_tick-AllValid run_id (WorkflowTick.timeout timeout) s h =
      with_idle_check-AllValid (process_timeout_tick timeout s)
        (deepcopy-AllWorkers IsValid copy_worker-IsValid s h)
  reduce_tick-AllValid run_id (WorkflowTick.waiter_timeout step_id waiter_id) s h =
      with_idle_check-AllValid _ (waiter_timeout-AllValid w now step_id waiter_id s h)
  reduce_tick-AllValid run_id WorkflowTick.idle_check s h = idle_check-AllValid w now s h
  reduce_tick-AllValid run_id (WorkflowTick.wakeup due) s h =
      with_idle_check-AllValid (process_wakeup_tick w now due s) (
        wake_workers-AllValid w now due _ (deepcopy s)
          (deepcopy-AllWorkers IsValid copy_worker-IsValid s h))
