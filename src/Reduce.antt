-- ===== src/Reduce.antt =====
-- The reducer and its replays: `_reduce_tick`, `rewind_in_progress`, `rebuild_state_from_ticks` and
-- `replay_ticks_stream` of workflows/runtime/control_loop/reduce.py.
use llama_agents.Prelude.{
  ℤ, String, false, Option, none, some, List, [], ◌∷◌, ◌++◌, if◌then◌else◌, sorted_keys, Result, ok,
  ◌>>=◌,
}
use llama_agents.Types.{
  Exception, idle_released, workflow_idle, workflow_failed, World, BrokerState, EventAttempt,
  InProgressState, InternalStepWorkerState, root, WorkflowCommand, publish_event, complete_run,
  fail_workflow, schedule_idle_check, indicates_exit, WorkflowTick, deepcopy, Error,
}
use llama_agents.Effects.{Emitting, Reduced, ◌▷◌, done, in_worker}
use llama_agents.Dispatch.{drain_eligible_queue}
use llama_agents.Failure.{wakeups}
use llama_agents.Stuck.{check_idle_state, detect_stuck_streams}
use llama_agents.StepResult.{process_step_result_tick}
use llama_agents.StepResult.Threading.{get_worker}
use llama_agents.AddEvent.{process_add_event_tick}
use llama_agents.Timers.{
  process_cancel_run_tick, process_publish_event_tick, process_timeout_tick, process_wakeup_tick,
  process_waiter_timeout_tick,
}

-- An idle check is scheduled where the state looks quiescent.
unfoldable pub schedule_idle : BrokerState → List WorkflowCommand
unfolding check_idle_state
schedule_idle state = if check_idle_state state then schedule_idle_check ∷ [] else []

unfoldable pub with_idle_check : Reduced → Reduced
unfolding schedule_idle
with_idle_check m = m >>= λ (state, commands). ok (state, commands ++ schedule_idle state)

unfoldable pub fail_stuck : BrokerState → String × Exception → Reduced
fail_stuck init (step_name, error) = ok (
  record (deepcopy init) { is_running = false },
  publish_event (workflow_failed step_name error none none)
      ∷ fail_workflow (root step_name) error
      ∷ [],
)

unfoldable pub process_idle_check_tick : BrokerState → Reduced
unfolding check_idle_state detect_stuck_streams fail_stuck
process_idle_check_tick init =
    if check_idle_state init
    then (elim (detect_stuck_streams init) [
      | none ↦ ok (init, publish_event workflow_idle ∷ [])
      | some stuck ↦ fail_stuck init stuck
    ])
    else done init

module _ (w : World) (run_id : Option String) where
  unfoldable pub reduce_tick : WorkflowTick → BrokerState → ℤ → Reduced
  unfolding with_idle_check process_idle_check_tick process_step_result_tick process_add_event_tick
      process_cancel_run_tick process_publish_event_tick process_timeout_tick process_wakeup_tick
      process_waiter_timeout_tick
  reduce_tick (WorkflowTick.step_result tick) init now =
      with_idle_check (process_step_result_tick w now run_id tick init)
  reduce_tick (WorkflowTick.add_event tick) init now =
      with_idle_check (process_add_event_tick w now tick init)
  reduce_tick WorkflowTick.cancel_run init now = with_idle_check (process_cancel_run_tick init)
  reduce_tick WorkflowTick.idle_release init now = ok (init, complete_run idle_released ∷ [])
  reduce_tick (WorkflowTick.publish event) init now =
      with_idle_check (process_publish_event_tick event init)
  reduce_tick (WorkflowTick.timeout timeout) init now =
      with_idle_check (process_timeout_tick timeout init)
  reduce_tick (WorkflowTick.waiter_timeout step_id waiter_id) init now =
      with_idle_check (process_waiter_timeout_tick w now step_id waiter_id init)
  reduce_tick WorkflowTick.idle_check init now = process_idle_check_tick init
  reduce_tick (WorkflowTick.wakeup due) init now =
      with_idle_check (process_wakeup_tick w now due init)

-- The attempt that an execution is turned back into.
unfoldable pub rewound_attempt : InProgressState → EventAttempt
rewound_attempt p = record {
  event = p.event;
  bound_events = p.bound_events;
  attempts = some p.attempts;
  first_attempt_at = some p.first_attempt_at;
  last_exception = p.last_exception;
  last_failed_at = p.last_failed_at;
  recovery_counts = p.recovery_counts;
  not_before = none;
  scope_path = p.scope_path;
  collection_release_payload = p.shared_state.collection_release_payload;
  work_item_id = p.work_item_id;
}

-- Each execution in turn is inserted at the front of the queue.
unfoldable pub requeue : List InProgressState → List EventAttempt → List EventAttempt
unfolding rewound_attempt
requeue [] queue = queue
requeue (p ∷ ps) queue = requeue ps (rewound_attempt p ∷ queue)

unfoldable pub rewind_worker : InternalStepWorkerState → InternalStepWorkerState
unfolding requeue
rewind_worker ws = record ws { queue = requeue ws.in_progress ws.queue; in_progress = [] }

-- A wakeup for each delayed attempt that is left in the queue.
unfoldable pub rearm : List EventAttempt → List WorkflowCommand
unfolding wakeups
rearm [] = []
rearm (a ∷ queue) = wakeups a ++ rearm queue

unfoldable pub rearm_worker : InternalStepWorkerState → Emitting InternalStepWorkerState
unfolding rearm
rearm_worker ws = ok (ws, rearm ws.queue)

module _ (w : World) (now_seconds : ℤ) where
  unfoldable pub rewind_workers : List String → BrokerState → Reduced
  unfolding rewind_worker drain_eligible_queue rearm_worker get_worker
  rewind_workers [] state = done state
  rewind_workers (step_name ∷ names) state = get_worker step_name state >>= λ ws.
      in_worker step_name state
        (drain_eligible_queue w now_seconds (root step_name) (rewind_worker ws) ▷ rearm_worker)
      ▷ rewind_workers names

  unfoldable pub rewind_in_progress : BrokerState → Reduced
  unfolding rewind_workers
  rewind_in_progress init =
      let state = deepcopy init in rewind_workers (sorted_keys state.workers) state

-- The last command that ends the run, `last` if there is none.
unfoldable pub last_exit : Option WorkflowCommand → List WorkflowCommand → Option WorkflowCommand
unfolding indicates_exit
last_exit last [] = last
last_exit last (c ∷ cs) = last_exit (if indicates_exit c then some c else last) cs

pub record ReplayResult : Type 0 where
  pub state : BrokerState
  pub exit_command : Option WorkflowCommand

-- Each tick is paired with what `time.time()` answers when it is replayed.
module _ (w : World) (run_id : Option String) where
  unfoldable pub rebuild_from : List (WorkflowTick × ℤ) → BrokerState → Result Error BrokerState
  unfolding reduce_tick
  rebuild_from [] state = ok state
  rebuild_from ((tick, now) ∷ ticks) state =
      reduce_tick w run_id tick state now >>= λ (state', _). rebuild_from ticks state'

  unfoldable pub rebuild_state_from_ticks :
      ℤ → List (WorkflowTick × ℤ) → BrokerState → Result Error BrokerState
  unfolding rebuild_from rewind_in_progress
  rebuild_state_from_ticks start ticks state =
      rewind_in_progress w start state >>= λ (state', _). rebuild_from ticks state'

  unfoldable pub replay_from : List (WorkflowTick × ℤ) → ReplayResult → Result Error ReplayResult
  unfolding reduce_tick last_exit
  replay_from [] r = ok r
  replay_from ((tick, now) ∷ ticks) r =
      reduce_tick w run_id tick r.state now >>= λ (state', commands).
      replay_from ticks
        (record { state = state'; exit_command = last_exit r.exit_command commands })

  unfoldable pub replay_ticks_stream :
      ℤ → List (WorkflowTick × ℤ) → BrokerState → Result Error ReplayResult
  unfolding replay_from rewind_in_progress
  replay_ticks_stream start ticks state = rewind_in_progress w start state >>= λ (state', _).
      replay_from ticks (record { state = state'; exit_command = none })
