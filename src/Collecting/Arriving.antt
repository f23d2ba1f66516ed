-- ===== src/Collecting/Arriving.antt =====
-- One arrival of a member (`_route_member_to_collect_step` of
-- workflows/runtime/control_loop/reduce.py), by the release state.
use llama_agents.Prelude.{
  ◌≡◌, refl, ap, ◌∙◌, ℤ, String, false, Option, none, some, List, [], ◌∷◌, ◌++◌, lookup,
  assign-assign, lookup-assign_same,
}
use llama_agents.Types.{
  Event, CollectionBinding, CollectionReleaseState, World, BrokerState, InternalStepWorkerState,
  TickAddEvent,
}
use llama_agents.Effects.{Reduced, done, ◌▷◌, in_worker}
use llama_agents.Streams.{
  new_release_state, release_on_item, release_state_for, release_state_key, fire_collection_release,
}
use llama_agents.AddEvent.Members.{
  arrive, arrive_at, buffer_member, store_release_state, fire_if_released,
}
use llama_agents.StepResult.Threading.{get_worker}
use llama_agents.Collecting.{release_state, holding, Collects, IsFrom, collected, fired_once}

module _ (w : World) (now : ℤ) (binding : CollectionBinding) (stream_id : String)
    (path : List String) where
  store-holding :
      (tick : TickAddEvent) (r r' : CollectionReleaseState) (s : BrokerState)
      → store_release_state w now tick binding.target_step stream_id binding r'
          (holding binding stream_id r s)
        ≡ holding binding stream_id r' s
  unfolding store_release_state
  store-holding tick r r' s =
      ap (λ d. record s { collection_release_states = d })
        (assign-assign (release_state_key stream_id binding.id) r r' s.collection_release_states)

  -- Where the release is stored, the arrival is at it.
  arrive-holding :
      (tick : TickAddEvent) (ws : InternalStepWorkerState) (r : CollectionReleaseState)
      (s : BrokerState)
      → arrive w now tick binding.target_step stream_id binding ws (holding binding stream_id r s)
        ≡ arrive_at w now tick binding.target_step stream_id binding ws r
            (holding binding stream_id r s)
  unfolding arrive release_state_for
  arrive-holding tick ws r s =
      rw
        (
          lookup-assign_same (release_state_key stream_id binding.id) r s.collection_release_states,
          release_state_for,
        )
        refl

  pub arrive-fresh :
      (tick : TickAddEvent) (ws : InternalStepWorkerState) (s : BrokerState)
      → lookup (release_state_key stream_id binding.id) s.collection_release_states ≡ none
      → arrive w now tick binding.target_step stream_id binding ws s
        ≡ arrive_at w now tick binding.target_step stream_id binding ws
            (release_state binding stream_id false [])
            (holding binding stream_id (release_state binding stream_id false []) s)
  unfolding arrive release_state_for new_release_state
  arrive-fresh tick ws s e = rw (e, release_state_for) refl

  pub collected-step :
      (tick : TickAddEvent) (ticks : List TickAddEvent) (r : CollectionReleaseState)
      (s : BrokerState) (ws : InternalStepWorkerState)
      → Collects binding stream_id s ws
      → collected w now binding stream_id path (tick ∷ ticks) (holding binding stream_id r s)
        ≡ arrive_at w now tick binding.target_step stream_id binding ws r
            (holding binding stream_id r s)
          ▷ collected w now binding stream_id path ticks
  unfolding get_worker
  collected-step tick ticks r s ws c =
      rw (c.target, get_worker)
        (ap (λ m. m ▷ collected w now binding stream_id path ticks) (arrive-holding tick ws r s))

  -- What follows the arrival of a member, by what the release state makes of it.
  abbrev pub after_arrival :
      InternalStepWorkerState → BrokerState → CollectionReleaseState × Option (List Event) → Reduced
  after_arrival ws s (r, none) = done (holding binding stream_id r s)
  after_arrival ws s (r, some events) =
      fired_once w now binding stream_id path events ws (holding binding stream_id r s)

  fire_if_released-after :
      (tick : TickAddEvent) (q : CollectionReleaseState) (s : BrokerState)
      (ws : InternalStepWorkerState)
      → IsFrom path tick
      → (made : CollectionReleaseState × Option (List Event))
      → fire_if_released w now tick binding.target_step stream_id binding ws made.1 (
          store_release_state w now tick binding.target_step stream_id binding made.0
            (holding binding stream_id q s))
        ≡ after_arrival ws s made
  unfolding fire_if_released
  fire_if_released-after tick q s ws from (r, none) = ap done (store-holding tick q r s)
  fire_if_released-after tick q s ws from (r, some events) =
      ap
        (λ p.
          in_worker binding.target_step
            (store_release_state w now tick binding.target_step stream_id binding r
              (holding binding stream_id q s))
            (fire_collection_release w now binding stream_id ws events p))
        from
      ∙ ap (fired_once w now binding stream_id path events ws) (store-holding tick q r s)

  pub arrive-pending :
      (tick : TickAddEvent) (buffer : List Event) (s : BrokerState) (ws : InternalStepWorkerState)
      → IsFrom path tick
      → arrive_at w now tick binding.target_step stream_id binding ws
          (release_state binding stream_id false buffer)
          (holding binding stream_id (release_state binding stream_id false buffer) s)
        ≡ after_arrival ws s (
            release_on_item binding
              (release_state binding stream_id false (buffer ++ (tick.event ∷ []))))
  unfolding arrive_at buffer_member
  arrive-pending tick buffer s ws from =
      fire_if_released-after tick (release_state binding stream_id false buffer) s ws from (
        release_on_item binding
          (release_state binding stream_id false (buffer ++ (tick.event ∷ []))))
