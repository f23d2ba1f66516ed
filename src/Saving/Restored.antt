-- ===== src/Saving/Restored.antt =====
-- What is left of a broker state after it was persisted (`to_serialized` and `from_serialized` of
-- workflows/runtime/types/internal_state.py), written down without a serializer.
use llama_agents.Prelude.{
  String, false, not, ◌||◌, ◌≡◌, Option, none, some, List, [], ◌∷◌, ◌++◌, map, get_or, is_empty,
  All, Dict, str_eq, ok,
}
use llama_agents.Types.{
  World, Event, BrokerState, CollectionReleasePayload, EventAttempt, InternalStepWorkerState,
  StepWorkerWaiter, StepConfig, as_event,
}
use llama_agents.Reduce.{rewound_attempt}
use llama_agents.Start.{Workflow, from_workflow}
use llama_agents.Saving.Serialized.{Serializer}
use llama_agents.Saving.Writing.{map_values, type_name}

-- A work item that was released by a collection takes its trigger event from the release.
abbrev pub trigger : Option CollectionReleasePayload → Event → Event
trigger none event = event
trigger (some payload) event = as_event payload

abbrev pub settled : EventAttempt → EventAttempt
settled a = record a {
  event = trigger a.collection_release_payload a.event;
  attempts = some (get_or a.attempts 0);
}

-- Requirements are forgotten, but that there were some; and so is that the waiter timed out.
abbrev pub settled_waiter : StepWorkerWaiter → StepWorkerWaiter
settled_waiter x = record x {
  event = trigger x.collection_release_payload x.event;
  requirements = [];
  has_requirements = not (is_empty x.requirements) || x.has_requirements;
  timed_out = false;
}

-- The executions are queued again, behind the attempts that waited.
abbrev pub restored : InternalStepWorkerState → InternalStepWorkerState
restored ws = record ws {
  queue = map settled ws.queue ++ map (λ p. settled (rewound_attempt p)) ws.in_progress;
  in_progress = [];
  collected_waiters = map settled_waiter ws.collected_waiters;
}

abbrev pub restored_state : Workflow → BrokerState → BrokerState
restored_state workflow s = record s {
  config = (from_workflow workflow).config;
  workers = map_values restored s.workers;
}

-- The state has the steps of the workflow, in their order and with their configurations.
abbrev pub Matches : Dict StepConfig → Dict InternalStepWorkerState → Type 0
Matches [] [] = Unit
Matches [] (_ ∷ _) = ⊥
Matches (_ ∷ _) [] = ⊥
Matches ((name, config) ∷ steps) ((key, ws) ∷ workers) =
    (name ≡ key) × (config ≡ ws.config) × Matches steps workers

abbrev pub Distinct : List String → Type 0
Distinct [] = Unit
Distinct (k ∷ ks) = All (λ j. str_eq k j ≡ false) ks × Distinct ks

-- What a serializer is for: events come back as they were, and no event is written as nothing.
pub record IsFaithful {Value : Type 0} (serializer : Serializer Value) : Type 0 where
  pub events : (e : Event) → serializer.deserialize (serializer.serialize e) ≡ ok e
  pub written : (e : Event) → serializer.is_empty_text (serializer.serialize e) ≡ false

-- The classes that a step's waiters wait for can be imported by their names.
abbrev pub Importable :
    {Value : Type 0} → World → Serializer Value → InternalStepWorkerState → Type 0
Importable w serializer ws =
    All
      (λ x. serializer.import_event_type (type_name w x.waiting_for_event) ≡ ok x.waiting_for_event)
      ws.collected_waiters
