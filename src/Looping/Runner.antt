-- ===== src/Looping/Runner.antt =====
-- The state of `_ControlLoopRunner` of workflows/runtime/control_loop/runner.py.
use llama_agents.Prelude.{ℕ, suc, ◌+◌, ℤ, Bool, true, Option, List, [], ◌∷◌, ◌++◌, Dict}
use llama_agents.Types.{BrokerState, Event, Exception, StepId, WorkflowTick, Error}
use llama_agents.Looping.Wakeups.{Wakeup, push}

-- A worker that is to be started: the command that its coroutine was made of.
pub record PendingWorker : Type 0 where
  pub step_id : StepId
  pub worker_id : ℕ
  pub event : Event
  pub bound_events : Option (Dict Event)

-- `running_workers` stands for `worker_tasks` and `_task_keys`; what the adapter was given is kept in
-- `published` (`write_to_event_stream`), `journal` (`on_tick`, with the time of the reduction) and
-- `closed`. `readings` counts the calls of `get_now`.
pub record Runner : Type 0 where
  pub state : BrokerState
  pub tick_buffer : List WorkflowTick
  pub scheduled_wakeups : List Wakeup
  pub wakeup_sequence : ℕ
  pub idle_check_pending : Bool
  pub pending_workers : List PendingWorker
  pub running_workers : List PendingWorker
  pub readings : ℕ
  pub published : List Event
  pub journal : List (WorkflowTick × ℤ)
  pub closed : Bool

-- What leaves the loop as an exception: of the reducer, or of a command.
pub data Raised : Type 0 where
  by_reducer : Error → Raised
  by_command : Exception → Raised

-- How a part of the loop ends: the loop goes on, `run` returns its result, or it raises.
pub data Progressed : Type 0 where
  going : Runner → Progressed
  finished : (result : Event) → Runner → Progressed
  failed : Raised → Runner → Progressed

unfoldable pub append_tick : WorkflowTick → Runner → Runner
append_tick tick r = record r { tick_buffer = r.tick_buffer ++ tick ∷ [] }

unfoldable pub schedule_tick : WorkflowTick → ℤ → Runner → Runner
schedule_tick tick at_time r = record r {
  scheduled_wakeups =
      push (record { at_time = at_time; seq = r.wakeup_sequence; tick = tick }) r.scheduled_wakeups;
  wakeup_sequence = r.wakeup_sequence + 1;
}

-- Nothing is left to start or to wait for.
unfoldable pub cleanup_tasks : Runner → Runner
cleanup_tasks r = record r { pending_workers = []; running_workers = []; closed = true }

unfoldable pub count_reading : Runner → Runner
count_reading r = record r { readings = suc r.readings }
