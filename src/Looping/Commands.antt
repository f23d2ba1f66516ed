-- ===== src/Looping/Commands.antt =====
-- `process_command` and `_process_tick` of workflows/runtime/control_loop/runner.py.
use llama_agents.Prelude.{
  ℕ, ℤ, ◌+ℤ◌, String, true, Option, none, List, [], ◌∷◌, ◌++◌, if◌then◌else◌, ok, raise,
}
use llama_agents.Types.{Event, StepId, WorkflowCommand, WorkflowTick, World}
use llama_agents.Reduce.{reduce_tick}
use llama_agents.Looping.Runner.{
  Runner, PendingWorker, Progressed, going, finished, failed, by_reducer, by_command, append_tick,
  schedule_tick, cleanup_tasks, count_reading,
}

-- The tick of a queued event, with the defaults of `TickAddEvent`.
unfoldable pub queued_tick : Event → Option StepId → List (String × ℕ) → List String → WorkflowTick
queued_tick event step_id recovery_counts scope_path = WorkflowTick.add_event (record {
  event = event;
  step_id = step_id;
  bound_events = none;
  attempts = none;
  first_attempt_at = none;
  last_exception = none;
  last_failed_at = none;
  recovery_counts = recovery_counts;
  scope_path = scope_path;
  collection_release_payload = none;
  work_item_id = none;
})

module _ (get_now : ℕ → ℤ) where
  unfoldable pub process_command : WorkflowCommand → Runner → Progressed
  unfolding queued_tick append_tick schedule_tick cleanup_tasks count_reading
  process_command (WorkflowCommand.queue_event event step_id recovery_counts scope_path) r =
      going (append_tick (queued_tick event step_id recovery_counts scope_path) r)
  process_command (WorkflowCommand.run_worker step_id event id bound_events) r =
      let worker : PendingWorker = record {
        step_id = step_id;
        worker_id = id;
        event = event;
        bound_events = bound_events;
      } in
      going (record r { pending_workers = r.pending_workers ++ worker ∷ [] })
  process_command (WorkflowCommand.halt exception) r =
      failed (by_command exception) (cleanup_tasks r)
  process_command (WorkflowCommand.complete_run result) r = finished result (cleanup_tasks r)
  process_command (WorkflowCommand.publish_event event) r =
      going (record r { published = r.published ++ event ∷ [] })
  process_command (WorkflowCommand.fail_workflow step_id exception) r =
      failed (by_command exception) (cleanup_tasks r)
  process_command WorkflowCommand.schedule_idle_check r = going (
      if r.idle_check_pending
      then r
      else record (append_tick WorkflowTick.idle_check r) { idle_check_pending = true })
  process_command (WorkflowCommand.schedule_waiter_timeout step_id waiter_id timeout) r = going (
      schedule_tick (WorkflowTick.waiter_timeout step_id waiter_id) (get_now r.readings +ℤ timeout)
        (count_reading r))
  process_command (WorkflowCommand.schedule_wakeup at_time) r =
      going (schedule_tick (WorkflowTick.wakeup at_time) at_time r)

  -- The commands in order, up to the first that ends the run.
  unfoldable pub process_commands : List WorkflowCommand → Runner → Progressed
  unfolding process_command cleanup_tasks
  process_commands [] r = going r
  process_commands (command ∷ commands) r = elim (process_command command r) [
    | going r' ↦ process_commands commands r'
    | finished result r' ↦ finished result r'
    | failed e r' ↦ failed e (cleanup_tasks r')
  ]

  module _ (w : World) (run_id : Option String) where
    unfoldable pub process_tick : WorkflowTick → Runner → Progressed
    unfolding process_commands reduce_tick cleanup_tasks count_reading
    process_tick tick r =
        let start = get_now r.readings in
        elim (reduce_tick w run_id tick r.state start) [
          | raise e ↦ failed (by_reducer e) (cleanup_tasks (count_reading r))
          | ok (state, commands) ↦ process_commands commands (record r {
            state = state;
            journal = r.journal ++ (tick, start) ∷ [];
            readings = ℕ.suc r.readings;
          })
        ]
