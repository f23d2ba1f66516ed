-- ===== src/Stuck.antt =====
-- `_check_idle_state` of reduce.py and `_detect_stuck_streams` of streams.py (both in
-- workflows/runtime/control_loop).
use llama_agents.Prelude.{
  ℤ, String, Bool, not, ◌&&◌, Option, none, some, List, [], ◌∷◌, map, any, every, find, is_empty,
  is_none, is_some, if◌then◌else◌, lookup, values,
}
use llama_agents.Types.{
  Exception, workflow_runtime_error, orphaned_release, open_streams, BrokerState,
  CollectionReleaseState, CollectionStreamInstance, InternalStepWorkerState, StepWorkerWaiter,
}

abbrev pub is_quiet : InternalStepWorkerState → Bool
is_quiet ws = is_empty ws.queue && is_empty ws.in_progress

unfoldable pub check_idle_state : BrokerState → Bool
check_idle_state state = state.is_running && every is_quiet (values state.workers)

unfoldable pub is_orphaned : BrokerState → CollectionReleaseState → Bool
is_orphaned state release = not release.released && is_none (lookup release.stream_id state.streams)

-- A waiter that can still resume work inside an open stream.
unfoldable pub is_in_stream_waiter : BrokerState → StepWorkerWaiter → Bool
is_in_stream_waiter state waiter =
    is_none waiter.resolved_event
    && not waiter.timed_out
    && any (λ sid. is_some (lookup sid state.streams)) waiter.scope_path

unfoldable pub has_in_stream_waiter : BrokerState → Bool
unfolding is_in_stream_waiter
has_in_stream_waiter state =
    any (λ ws. any (is_in_stream_waiter state) ws.collected_waiters) (values state.workers)

unfoldable pub orphan_step : BrokerState → CollectionReleaseState → String
orphan_step state release = elim (lookup release.binding_id state.config.collection_bindings) [
  | none ↦ "<unknown>"
  | some binding ↦ binding.target_step
]

abbrev pub stream_details : List CollectionStreamInstance → List (String × String × ℤ)
stream_details = map (λ s. (s.stream_id, s.source_step, s.open_work_items))

unfoldable pub leaked : BrokerState → List CollectionStreamInstance → Option (String × Exception)
unfolding has_in_stream_waiter
leaked state [] = none
leaked state (first ∷ rest) =
    if has_in_stream_waiter state
    then none
    else some
        (first.source_step, workflow_runtime_error (open_streams (stream_details (first ∷ rest))))

unfoldable pub detect_stuck_streams : BrokerState → Option (String × Exception)
unfolding is_orphaned orphan_step leaked
detect_stuck_streams state =
    elim (find (is_orphaned state) (values state.collection_release_states)) [
      | none ↦ leaked state (values state.streams)
      | some release ↦
          let step_name = orphan_step state release in
          some (
            step_name,
            workflow_runtime_error
                (orphaned_release step_name release.binding_id release.stream_id),
          )
    ]
