-- ===== src/Types/State.antt =====
-- The broker's state (workflows/runtime/types/internal_state.py).
use llama_agents.Prelude.{
  ℕ, ℤ, String, Bool, Option, none, some, List, [], ◌∷◌, map, Dict, lookup, str_eq, if◌then◌else◌,
}
use llama_agents.Types.EventTypes.{Event, Exception}
use llama_agents.Types.Work.{CollectionReleasePayload, StepWorkerState, StepWorkerWaiter}
use llama_agents.Types.Config.{BrokerConfig, CollectionBinding, StepConfig}

pub record CollectionStreamInstance : Type 0 where
  pub stream_id : String
  pub source_step : String
  pub scope_path : List String
  pub open_work_items : ℤ
  pub accepting_binding_ids : List String

pub record CollectionReleaseState : Type 0 where
  pub binding_id : String
  pub stream_id : String
  pub buffer : List Event
  pub released : Bool

pub record EventAttempt : Type 0 where
  pub event : Event
  pub bound_events : Option (Dict Event)
  pub attempts : Option ℕ
  pub first_attempt_at : Option ℤ
  pub last_exception : Option Exception
  pub last_failed_at : Option ℤ
  pub recovery_counts : Dict ℕ
  pub not_before : Option ℤ
  pub scope_path : List String
  pub collection_release_payload : Option CollectionReleasePayload
  pub work_item_id : Option String

-- The defaults of the class, around an event.
unfoldable pub attempt_of : Event → EventAttempt
attempt_of event = record {
  event = event;
  bound_events = none;
  attempts = none;
  first_attempt_at = none;
  last_exception = none;
  last_failed_at = none;
  recovery_counts = [];
  not_before = none;
  scope_path = [];
  collection_release_payload = none;
  work_item_id = none;
}

pub record InProgressState : Type 0 where
  pub event : Event
  pub worker_id : ℕ
  pub shared_state : StepWorkerState
  pub attempts : ℕ
  pub first_attempt_at : ℤ
  pub last_exception : Option Exception
  pub last_failed_at : Option ℤ
  pub recovery_counts : Dict ℕ
  pub bound_events : Option (Dict Event)
  pub scope_path : List String
  pub work_item_id : Option String

pub record InternalStepWorkerState : Type 0 where
  pub queue : List EventAttempt
  pub config : StepConfig
  pub in_progress : List InProgressState
  pub collected_events : Dict (List Event)
  pub collected_waiters : List StepWorkerWaiter
  pub static_collect_events : List Event

pub record BrokerState : Type 0 where
  pub is_running : Bool
  pub config : BrokerConfig
  pub workers : Dict InternalStepWorkerState
  pub stream_seq : ℕ
  pub work_item_seq : ℕ
  pub streams : Dict CollectionStreamInstance
  pub collection_release_states : Dict CollectionReleaseState

-- `dict(bound) if bound else None`: an empty dictionary becomes `None`.
unfoldable pub copy_bound : Option (Dict Event) → Option (Dict Event)
copy_bound none = none
copy_bound (some []) = none
copy_bound (some (e ∷ d)) = some (e ∷ d)

-- `InProgressState._deepcopy`; the copies of lists and dictionaries are equal to them.
unfoldable pub copy_in_progress : InProgressState → InProgressState
unfolding copy_bound
copy_in_progress p = record p { bound_events = copy_bound p.bound_events }

-- `InternalStepWorkerState._deepcopy`
unfoldable pub copy_worker : InternalStepWorkerState → InternalStepWorkerState
unfolding copy_in_progress
copy_worker ws = record ws { in_progress = map copy_in_progress ws.in_progress }

unfoldable pub copy_workers : Dict InternalStepWorkerState → Dict InternalStepWorkerState
unfolding copy_worker
copy_workers [] = []
copy_workers ((name, ws) ∷ d) = (name, copy_worker ws) ∷ copy_workers d

unfoldable pub deepcopy : BrokerState → BrokerState
unfolding copy_workers
deepcopy s = record s { workers = copy_workers s.workers }

-- The first accepting binding of the stream whose target is the step.
first_targeting : BrokerConfig → String → List String → Option CollectionBinding
first_targeting config target_step [] = none
first_targeting config target_step (id ∷ ids) =
    let rest = first_targeting config target_step ids in
    elim (lookup id config.collection_bindings) [
      | none ↦ rest
      | some binding ↦ if str_eq binding.target_step target_step then some binding else rest
    ]

unfoldable pub binding_for_target :
    BrokerConfig → String → String → Dict CollectionStreamInstance → Option CollectionBinding
unfolding first_targeting
binding_for_target config stream_id target_step streams = elim (lookup stream_id streams) [
  | none ↦ none
  | some stream ↦ first_targeting config target_step stream.accepting_binding_ids
]
