-- ===== src/AddEvent/Members.antt =====
-- `_route_member_to_collect_step` of workflows/runtime/control_loop/reduce.py: an accepted event
-- arrives at a step that collects the members of a stream.
use llama_agents.Prelude.{
  ℤ, negsuc, String, Bool, true, false, Option, none, some, List, [], ◌∷◌, ◌++◌, last?, init,
  is_some, if◌then◌else◌, assign, ok,
}
use llama_agents.Types.{
  Event, Exception, class_of, workflow_failed, workflow_runtime_error, targeted_collect, World,
  BrokerState, CollectionBinding, CollectionReleaseState, InternalStepWorkerState, TickAddEvent,
  root, publish_event, fail_workflow, binding_for_target,
}
use llama_agents.Effects.{Emitting, Reduced, ◌▷◌, done, in_worker}
use llama_agents.Streams.{
  release_state_for, release_state_key, release_on_item, fire_collection_release,
  adjust_open_work_items,
}

module _ (w : World) (now_seconds : ℤ) (tick : TickAddEvent) (step_name : String) where
  -- A targeted send outside any stream fails the run.
  unfoldable pub fail_targeted : BrokerState → Emitting (BrokerState × Bool)
  fail_targeted state =
      let error : Exception =
        workflow_runtime_error (targeted_collect (class_of tick.event) step_name) in
      ok (
        (record state { is_running = false }, true),
        publish_event (workflow_failed step_name error none none)
            ∷ fail_workflow (root step_name) error
            ∷ [],
      )

  -- The release state with the member in its buffer, and what that releases.
  unfoldable pub buffer_member :
      CollectionBinding → CollectionReleaseState → CollectionReleaseState × Option (List Event)
  unfolding release_on_item
  buffer_member binding release_state =
      release_on_item binding
        (record release_state { buffer = release_state.buffer ++ (tick.event ∷ []) })

  unfoldable pub store_release_state :
      String → CollectionBinding → CollectionReleaseState → BrokerState → BrokerState
  unfolding release_state_key
  store_release_state stream_id binding release_state state = record state {
    collection_release_states =
        assign (release_state_key stream_id binding.id) release_state
          state.collection_release_states;
  }

  -- The release of the members, if there is one.
  unfoldable pub fire_if_released :
      String
      → CollectionBinding
      → InternalStepWorkerState
      → Option (List Event)
      → BrokerState
      → Reduced
  unfolding fire_collection_release
  fire_if_released stream_id binding worker_state none state = done state
  fire_if_released stream_id binding worker_state (some events) state =
      in_worker binding.target_step state (
        fire_collection_release w now_seconds binding stream_id worker_state events
          (init tick.scope_path))

  -- The arrival at a release state that is stored in the state.
  unfoldable pub arrive_at :
      String
      → CollectionBinding
      → InternalStepWorkerState
      → CollectionReleaseState
      → BrokerState
      → Reduced
  unfolding buffer_member store_release_state fire_if_released
  arrive_at stream_id binding worker_state release_state state =
      let (release_state', release) = buffer_member binding release_state in
      if release_state.released
      then done state
      else fire_if_released stream_id binding worker_state release
          (store_release_state stream_id binding release_state' state)

  -- The part before the counter is adjusted.
  unfoldable pub arrive :
      String → CollectionBinding → InternalStepWorkerState → BrokerState → Reduced
  unfolding release_state_for arrive_at
  arrive stream_id binding worker_state state =
      let (stored, release_state) = release_state_for state stream_id binding in
      arrive_at stream_id binding worker_state release_state stored

  unfoldable pub member_in_stream : String → InternalStepWorkerState → BrokerState → Reduced
  unfolding arrive adjust_open_work_items
  member_in_stream stream_id worker_state state =
      (elim (binding_for_target state.config stream_id step_name state.streams) [
        | none ↦ done state
        | some binding ↦ arrive stream_id binding worker_state state
      ])
      ▷ adjust_open_work_items w now_seconds (some stream_id) (negsuc 0)

  -- The state, and whether the run was failed.
  unfoldable pub route_member_to_collect_step :
      InternalStepWorkerState → BrokerState → Emitting (BrokerState × Bool)
  unfolding fail_targeted member_in_stream
  route_member_to_collect_step worker_state state = elim (last? tick.scope_path) [
    | none ↦ if is_some tick.step_id then fail_targeted state else done (state, false)
    | some stream_id ↦
        member_in_stream stream_id worker_state state ▷ λ state'. done (state', false)
  ]
