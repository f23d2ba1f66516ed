-- ===== src/Looping/Turns.antt =====
-- `run` of workflows/runtime/control_loop/runner.py: its start, the drain of buffered ticks, and what
-- a completed task, a timeout or a pull adds to the buffer.
use llama_agents.Prelude.{
  ℕ, zero, suc, ◌==◌, ℤ, ◌+ℤ◌, String, Bool, true, false, ◌&&◌, Option, none, some, List, [], ◌∷◌,
  ◌++◌, if◌then◌else◌, any, remove_first, str_eq, ok, raise,
}
use llama_agents.Types.{
  BrokerState, stop_event, Event, StepId, step_key, StepFunctionResult, TickStepResult,
  WorkflowCommand, WorkflowTick, World,
}
use llama_agents.Matching.{isinstance}
use llama_agents.Reduce.{rewind_in_progress}
use llama_agents.Looping.Wakeups.{pop_due_ticks}
use llama_agents.Looping.Runner.{
  Runner, Progressed, going, finished, failed, by_reducer, append_tick, schedule_tick,
  cleanup_tasks, count_reading,
}
use llama_agents.Looping.Commands.{queued_tick, process_command, process_tick}
use llama_agents.Looping.Rehydrate.{rehydrate_with_ticks}

unfoldable pub is_idle_check : WorkflowTick → Bool
is_idle_check WorkflowTick.idle_check = true
is_idle_check _ = false

-- What `wait_for_next_task` completes: nothing before the timeout, a pull with what it received or
-- without, or a worker with its result or cancelled.
pub data Completed : Type 0 where
  timed_out : Completed
  pulled : Option WorkflowTick → Completed
  pull_failed : Completed
  worker_done : StepId → (worker_id : ℕ) → TickStepResult → Completed
  worker_lost : StepId → (worker_id : ℕ) → Completed

unfoldable pub drop_running : StepId → ℕ → Runner → Runner
drop_running step_id worker_id r = record r {
  running_workers =
      remove_first
        (λ p. str_eq (step_key p.step_id) (step_key step_id) && (p.worker_id == worker_id))
        r.running_workers;
}

-- Every pending worker is started.
unfoldable pub start_workers : Runner → Runner
start_workers r = record r {
  pending_workers = [];
  running_workers = r.running_workers ++ r.pending_workers;
}

-- `__init__`, up to the empty buffer of a fresh runner.
unfoldable pub new_runner : BrokerState → Runner
unfolding rehydrate_with_ticks
new_runner init_state = record {
  state = init_state;
  tick_buffer = rehydrate_with_ticks init_state;
  scheduled_wakeups = [];
  wakeup_sequence = 0;
  idle_check_pending = false;
  pending_workers = [];
  running_workers = [];
  readings = 0;
  published = [];
  journal = [];
  closed = false;
}

unfoldable pub enqueue_start : Option Event → Runner → Runner
unfolding append_tick queued_tick
enqueue_start none r = r
enqueue_start (some event) r = append_tick (queued_tick event none [] []) r

unfoldable pub schedule_timeout : Option ℤ → ℤ → Runner → Runner
unfolding schedule_tick
schedule_timeout none start r = r
schedule_timeout (some timeout) start r =
    schedule_tick (WorkflowTick.timeout timeout) (start +ℤ timeout) r

module _ (w : World) (get_now : ℕ → ℤ) (run_id : Option String) where
  -- One round of the loop over the buffer, on the first tick and the others. An idle check is put
  -- behind the others.
  unfoldable pub pop_tick : WorkflowTick → List WorkflowTick → Runner → Progressed
  unfolding is_idle_check process_tick
  pop_tick tick [] r = process_tick get_now w run_id tick (record r {
    tick_buffer = [];
    idle_check_pending = if is_idle_check tick then false else r.idle_check_pending;
  })
  pop_tick tick (t ∷ rest) r =
      if is_idle_check tick
      then going (record r { tick_buffer = (t ∷ rest) ++ tick ∷ [] })
      else process_tick get_now w run_id tick (record r { tick_buffer = t ∷ rest })

  -- `while self.tick_buffer`, for so many rounds; `none` if they do not empty the buffer.
  unfoldable pub drain_buffer : ℕ → Runner → Option Progressed
  unfolding pop_tick
  drain_buffer zero r = elim r.tick_buffer [ [] ↦ some (going r) | _ ∷ _ ↦ none ]
  drain_buffer (suc fuel) r = elim r.tick_buffer [
    | [] ↦ some (going r)
    | tick ∷ rest ↦ elim (pop_tick tick rest r) [
      | going r' ↦ drain_buffer fuel r'
      | finished result r' ↦ some (finished result r')
      | failed e r' ↦ some (failed e r')
    ]
  ]

  -- `isinstance(res, StepWorkerResult) and isinstance(res.result, StopEvent)`
  unfoldable pub is_stop_result : StepFunctionResult → Bool
  is_stop_result (StepFunctionResult.worker_result (some event) _) = isinstance w event stop_event
  is_stop_result _ = false

  unfoldable pub accept : Completed → Runner → Runner
  unfolding is_stop_result append_tick cleanup_tasks drop_running count_reading
  accept timed_out r =
      let popped = pop_due_ticks (get_now r.readings) r.scheduled_wakeups in
      record (count_reading r) {
        tick_buffer = r.tick_buffer ++ popped.0;
        scheduled_wakeups = popped.1;
      }
  accept (pulled none) r = r
  accept (pulled (some tick)) r = append_tick tick r
  accept pull_failed r = r
  accept (worker_done step_id worker_id tick) r =
      let left = drop_running step_id worker_id r in
      append_tick (WorkflowTick.step_result tick)
        (if any is_stop_result tick.result then cleanup_tasks left else left)
  accept (worker_lost step_id worker_id) r = drop_running step_id worker_id r

  -- The commands of the rewind, whose results are not looked at.
  unfoldable pub process_rewound : List WorkflowCommand → Runner → Progressed
  unfolding process_command cleanup_tasks
  process_rewound [] r = going r
  process_rewound (command ∷ commands) r = elim (process_command get_now command r) [
    | going r' ↦ process_rewound commands r'
    | finished result r' ↦ process_rewound commands r'
    | failed e r' ↦ failed e (cleanup_tasks r')
  ]

  -- `run` before its main loop, with the workflow's timeout if it is to be started.
  unfoldable pub begin_run : Option Event → Option ℤ → Runner → Progressed
  unfolding enqueue_start schedule_timeout process_rewound count_reading
  begin_run start_event timeout r =
      let start = get_now r.readings in
      elim (rewind_in_progress w start r.state) [
        | raise e ↦ failed (by_reducer e) (count_reading r)
        | ok (state, commands) ↦
            process_rewound commands
              (record (schedule_timeout timeout start
                (count_reading (enqueue_start start_event r))) { state = state })
      ]
