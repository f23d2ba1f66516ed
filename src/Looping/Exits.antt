-- ===== src/Looping/Exits.antt =====
-- How a run ends: `process_command` and `_process_tick` of workflows/runtime/control_loop/runner.py,
-- and `indicates_exit` of workflows/runtime/types/commands.py.
use llama_agents.Prelude.{ℕ, ℤ, ◌≡◌, refl, true, Option, none, some, List, [], ◌∷◌, find}
use llama_agents.Types.{WorkflowCommand, indicates_exit}
use llama_agents.Looping.Runner.{
  Runner, Progressed, going, finished, failed, Raised, by_command, cleanup_tasks,
}
use llama_agents.Looping.Commands.{process_command, process_commands}

-- No task is left, and the adapter is closed.
pub record IsClean (r : Runner) : Type 0 where
  pub none_pending : r.pending_workers ≡ []
  pub none_running : r.running_workers ≡ []
  pub closed : r.closed ≡ true

-- What a command raises.
abbrev pub Raises : WorkflowCommand → Raised → Type 0
Raises (WorkflowCommand.halt e) x = x ≡ by_command e
Raises (WorkflowCommand.fail_workflow step_id e) x = x ≡ by_command e
Raises _ x = ⊥

-- How the commands of a tick end, by the first of them that indicates an exit.
abbrev pub EndsBy : Option WorkflowCommand → Progressed → Type 0
EndsBy first (going r) = first ≡ none
EndsBy first (finished result r) = (first ≡ some (WorkflowCommand.complete_run result)) × IsClean r
EndsBy first (failed x r) = (c : WorkflowCommand) × (first ≡ some c) × Raises c x × IsClean r

cleaned : (r : Runner) → IsClean (cleanup_tasks r)
unfolding cleanup_tasks
cleaned r = record { none_pending = refl; none_running = refl; closed = refl }

-- The loop goes on over the commands of a tick exactly if none of them indicates an exit. Otherwise
-- the first that does ends the run: with its result or by raising its exception, with no worker left
-- pending or running and the adapter closed.
pub process_commands-EndsBy :
    (get_now : ℕ → ℤ) (cs : List WorkflowCommand) (r : Runner)
    → EndsBy (find indicates_exit cs) (process_commands get_now cs r)
unfolding process_commands process_command indicates_exit
process_commands-EndsBy get_now [] r = refl
process_commands-EndsBy get_now (WorkflowCommand.queue_event event step_id counts scope_path ∷ cs)
      r =
    process_commands-EndsBy get_now cs _
process_commands-EndsBy get_now (WorkflowCommand.run_worker step_id event id bound_events ∷ cs) r =
    process_commands-EndsBy get_now cs _
process_commands-EndsBy get_now (WorkflowCommand.halt exception ∷ cs) r =
    (WorkflowCommand.halt exception, refl, refl, cleaned (cleanup_tasks r))
process_commands-EndsBy get_now (WorkflowCommand.complete_run result ∷ cs) r = (refl, cleaned r)
process_commands-EndsBy get_now (WorkflowCommand.publish_event event ∷ cs) r =
    process_commands-EndsBy get_now cs _
process_commands-EndsBy get_now (WorkflowCommand.fail_workflow step_id exception ∷ cs) r =
    (WorkflowCommand.fail_workflow step_id exception, refl, refl, cleaned (cleanup_tasks r))
process_commands-EndsBy get_now (WorkflowCommand.schedule_idle_check ∷ cs) r =
    process_commands-EndsBy get_now cs _
process_commands-EndsBy get_now
      (WorkflowCommand.schedule_waiter_timeout step_id waiter_id timeout ∷ cs) r =
    process_commands-EndsBy get_now cs _
process_commands-EndsBy get_now (WorkflowCommand.schedule_wakeup at_time ∷ cs) r =
    process_commands-EndsBy get_now cs _
