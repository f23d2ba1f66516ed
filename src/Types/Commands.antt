-- ===== src/Types/Commands.antt =====
-- The commands that the reducer returns (workflows/runtime/types/commands.py) and step identities
-- (workflows/runtime/types/step_id.py).
use llama_agents.Prelude.{ℕ, ℤ, String, Bool, true, false, Option, List, [], ◌∷◌, ◌++◌, Dict, join}
use llama_agents.Types.EventTypes.{Event, Exception}

pub record StepId : Type 0 where
  pub namespace : List String
  pub name : String

unfoldable pub root : String → StepId
root name = record { namespace = []; name = name }

-- `str(step_id)`
unfoldable pub step_key : StepId → String
unfolding join
step_key id = root_or_path id.namespace id.name
  where
    root_or_path : List String → String → String
    root_or_path [] name = name
    root_or_path (part ∷ parts) name = join "/" ((part ∷ parts) ++ (name ∷ []))

pub data WorkflowCommand : Type 0 where
  run_worker :
      (step_id : StepId) (event : Event) (id : ℕ) (bound_events : Option (Dict Event))
      → WorkflowCommand
  queue_event :
      (event : Event) (step_id : Option StepId) (recovery_counts : Dict ℕ)
      (scope_path : List String)
      → WorkflowCommand
  halt : Exception → WorkflowCommand
  complete_run : (result : Event) → WorkflowCommand
  fail_workflow : StepId → Exception → WorkflowCommand
  publish_event : Event → WorkflowCommand
  schedule_waiter_timeout : StepId → (waiter_id : String) (timeout : ℤ) → WorkflowCommand
  schedule_wakeup : (at_time : ℤ) → WorkflowCommand
  schedule_idle_check : WorkflowCommand

unfoldable pub indicates_exit : WorkflowCommand → Bool
indicates_exit (complete_run _) = true
indicates_exit (fail_workflow _ _) = true
indicates_exit (halt _) = true
indicates_exit _ = false
