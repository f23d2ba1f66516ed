-- ===== src/Types/Ticks.antt =====
-- Ticks, the inputs of the reducer (workflows/runtime/types/ticks.py).
use llama_agents.Prelude.{ℕ, ℤ, String, Option, List, Dict}
use llama_agents.Types.EventTypes.{Event, Exception}
use llama_agents.Types.Work.{CollectionReleasePayload, StepFunctionResult}
use llama_agents.Types.Commands.{StepId}

pub record TickStepResult : Type 0 where
  pub step_id : StepId
  pub worker_id : ℕ
  pub event : Event
  pub result : List StepFunctionResult

pub record TickAddEvent : Type 0 where
  pub event : Event
  pub step_id : Option StepId
  pub bound_events : Option (Dict Event)
  pub attempts : Option ℕ
  pub first_attempt_at : Option ℤ
  pub last_exception : Option Exception
  pub last_failed_at : Option ℤ
  pub recovery_counts : Dict ℕ
  pub scope_path : List String
  pub collection_release_payload : Option CollectionReleasePayload
  pub work_item_id : Option String

pub data WorkflowTick : Type 0 where
  step_result : TickStepResult → WorkflowTick
  add_event : TickAddEvent → WorkflowTick
  cancel_run : WorkflowTick
  idle_release : WorkflowTick
  publish : Event → WorkflowTick
  timeout : ℤ → WorkflowTick
  waiter_timeout : StepId → (waiter_id : String) → WorkflowTick
  idle_check : WorkflowTick
  wakeup : (due : ℤ) → WorkflowTick
