-- ===== src/Recovery/Delivering.antt =====
-- The recoveries that are counted for an event on its way from a command to an execution:
-- `process_command` of workflows/runtime/control_loop/runner.py and `_process_add_event_tick` of
-- reduce.py.
use llama_agents.Prelude.{
  ℕ, ◌≡◌, refl, sym, ap, ◌∙◌, ◌⊎◌, inl, inr, ℤ, String, Option, none, some, List, [], get_or,
  Option-cases, lookup, Dict, All, if_case,
}
use llama_agents.Types.{
  World, BrokerState, Event, InProgressState, StepId, TickAddEvent, WorkflowCommand, WorkflowTick,
  queue_event, stop_event, input_required_event,
}
use llama_agents.Matching.{isinstance}
use llama_agents.StepResult.Threading.{Progress, Scope, apply_event}
use llama_agents.AddEvent.{identify}
use llama_agents.AddEvent.Delivery.{attempt_from}
use llama_agents.Looping.Commands.{queued_tick}
use llama_agents.Executing.{Runs, Runs-recovery_counts}

-- The recoveries of a handler that are counted.
abbrev pub recoveries : String → Dict ℕ → ℕ
recoveries name counts = get_or (lookup name counts) 0

abbrev pub queued_counts : WorkflowCommand → Option (Dict ℕ)
queued_counts (WorkflowCommand.queue_event event step_id counts scope_path) = some counts
queued_counts _ = none

abbrev tick_counts : WorkflowTick → Dict ℕ
tick_counts (WorkflowTick.add_event t) = t.recovery_counts
tick_counts _ = []

-- The event that a command queues becomes a tick, and the tick's attempt an execution.
abbrev pub Delivers : World → WorkflowCommand → InProgressState → Type 0
Delivers w command q =
    (event : Event) × (step_id : Option StepId) × (counts : Dict ℕ) × (path : List String)
    × (t : TickAddEvent) × (s : BrokerState) × (bound : Option (Dict Event)) × (now : ℤ) × (command
        ≡ queue_event event step_id counts path)
    × (queued_tick event step_id counts path ≡ WorkflowTick.add_event t)
    × Runs w now (attempt_from (identify t s).0 t.event bound) q

identify-counts :
    (t : TickAddEvent) (s : BrokerState) → (identify t s).0.recovery_counts ≡ t.recovery_counts
unfolding identify
identify-counts t s = elim (Option-cases t.work_item_id) [
  | inr (id, e) ↦ rw (e, identify) refl
  | inl missing ↦ elim (Option-cases t.collection_release_payload) [
    | inl plain ↦ rw (missing, plain, identify) refl
    | inr (payload, e) ↦ rw (missing, e, identify) refl
  ]
]

pub Delivers-counts :
    (w : World) (command : WorkflowCommand) (q : InProgressState)
    → Delivers w command q
    → queued_counts command ≡ some q.recovery_counts
unfolding attempt_from queued_tick
Delivers-counts w command q (event, step_id, counts, path, t, s, bound, now, queued, ticked, runs) =
    ap queued_counts queued
    ∙ ap some (
        ap tick_counts ticked
        ∙ sym (identify-counts t s)
        ∙ sym (Runs-recovery_counts w now (attempt_from (identify t s).0 t.event bound) q runs))

-- What a returned event queues has the counts of the execution that returned it.
abbrev pub Inherits : Dict ℕ → WorkflowCommand → Type 0
Inherits counts c = (queued_counts c ≡ none) ⊎ (queued_counts c ≡ some counts)

pub apply_event-Inherits :
    (w : World) (scope : Scope) (event : Event) (acc : Progress)
    → All
        (Inherits acc.this_execution.recovery_counts)
        (apply_event w scope event (record acc { commands = [] })).commands
unfolding apply_event
apply_event-Inherits w scope event acc =
    if_case {A = Progress} (λ r. All (Inherits acc.this_execution.recovery_counts) r.commands)
      (isinstance w event stop_event) _ _ (λ stops. (inl refl, (inl refl, tt)))
      (λ goes_on.
        if_case {A = Progress} (λ r. All (Inherits acc.this_execution.recovery_counts) r.commands)
          (isinstance w event input_required_event) _ _ (λ asks. (inl refl, (inr refl, tt)))
          (λ plain. (inr refl, tt)))
