-- ===== src/Collecting.antt =====
-- The members of a stream for one binding, from the first arrival to the close of the stream:
-- `_route_member_to_collect_step` of workflows/runtime/control_loop/reduce.py for each arrival, and
-- the body of the loop of `close_collection_stream` of streams.py.
pub mod Arriving
pub mod Closing
pub mod Once
use llama_agents.Prelude.{
  ℕ, ◌≡◌, ℤ, String, Bool, false, Option, none, some, List, [], ◌∷◌, ◌>>=◌, init, take, is_none,
  lookup, assign,
}
use llama_agents.Types.{
  Event, CollectionBinding, CollectionReleaseState, World, BrokerState, InternalStepWorkerState,
  TickAddEvent,
}
use llama_agents.Effects.{Reduced, ◌▷◌, in_worker}
use llama_agents.Streams.{release_state_key, close_binding, fire_collection_release}
use llama_agents.AddEvent.Members.{arrive}
use llama_agents.StepResult.Threading.{get_worker}

-- The members that the policy wants of all that arrive.
abbrev pub wanted : Option ℕ → List Event → List Event
wanted none es = es
wanted (some n) es = take n es

module _ (binding : CollectionBinding) (stream_id : String) where
  -- What is stored of the members so far, beside what the state else is.
  abbrev pub release_state : Bool → List Event → CollectionReleaseState
  release_state released buffer = record {
    binding_id = binding.id;
    stream_id = stream_id;
    buffer = buffer;
    released = released;
  }

  abbrev pub holding : CollectionReleaseState → BrokerState → BrokerState
  holding r s = record s {
    collection_release_states =
        assign (release_state_key stream_id binding.id) r s.collection_release_states;
  }

  -- The step collects, and nothing is stored for it.
  pub record Collects (s : BrokerState) (ws : InternalStepWorkerState) : Type 0 where
    target : lookup binding.target_step s.workers ≡ some ws
    collects : is_none ws.config.collection_param ≡ false
    fresh : lookup (release_state_key stream_id binding.id) s.collection_release_states ≡ none

abbrev pub IsFrom : List String → TickAddEvent → Type 0
IsFrom path tick = init tick.scope_path ≡ path

module _ (w : World) (now : ℤ) (binding : CollectionBinding) (stream_id : String)
    (path : List String) where
  -- The members arrive one after the other, each at the worker as it then is, and the stream closes.
  abbrev pub collected : List TickAddEvent → BrokerState → Reduced
  collected [] s = close_binding w now stream_id path binding s
  collected (tick ∷ ticks) s =
      (get_worker binding.target_step s >>= λ ws.
      arrive w now tick binding.target_step stream_id binding ws s)
      ▷ collected ticks

  -- One release of the members to the worker.
  abbrev pub fired_once : List Event → InternalStepWorkerState → BrokerState → Reduced
  fired_once events ws s =
      in_worker binding.target_step s
        (fire_collection_release w now binding stream_id ws events path)
