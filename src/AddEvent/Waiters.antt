-- ===== src/AddEvent/Waiters.antt =====
-- `_resolve_waiters` of workflows/runtime/control_loop/reduce.py: an event resumes the work items of
-- the waiters that it satisfies.
use llama_agents.Prelude.{
  ℤ, String, Bool, true, false, ◌&&◌, some, List, [], ◌∷◌, ◌++◌, every, if◌then◌else◌, Dict, ◌>>=◌,
}
use llama_agents.Types.{
  Event, World, BrokerState, EventAttempt, InternalStepConfig, InternalStepWorkerState,
  StepWorkerWaiter, attempt_of, root,
}
use llama_agents.Effects.{Emitting, ◌▷◌, done, put_worker}
use llama_agents.Matching.{event_matches}
use llama_agents.Dispatch.{add_or_enqueue_event}
use llama_agents.StepResult.Threading.{get_worker}

-- The suspended work item, as the waiter recorded it.
unfoldable pub resumed_attempt : StepWorkerWaiter → EventAttempt
unfolding attempt_of
resumed_attempt waiter = record (attempt_of waiter.event) {
  bound_events = waiter.bound_events;
  scope_path = waiter.scope_path;
  collection_release_payload = waiter.collection_release_payload;
  work_item_id = waiter.work_item_id;
}

abbrev pub add_if : Bool → String → List String → List String
add_if true name names = names ++ (name ∷ [])
add_if false name names = names

module _ (w : World) (now_seconds : ℤ) (event : Event) where
  unfoldable pub satisfies : Bool → StepWorkerWaiter → Bool
  unfolding event_matches
  satisfies allow_subclasses waiter =
      event_matches w allow_subclasses event waiter.waiting_for_event
      && every (λ (k, v). w.attribute_equals event k v) waiter.requirements

  -- The loop over one step's waiters. `before` holds those that are passed; the flag says whether
  -- one was satisfied.
  unfoldable pub resolve_from :
      (step_name : String) (allow_subclasses : Bool) (before after : List StepWorkerWaiter)
      → InternalStepWorkerState × Bool
      → Emitting (InternalStepWorkerState × Bool)
  unfolding satisfies resumed_attempt add_or_enqueue_event
  resolve_from step_name allow_subclasses before [] r = done r
  resolve_from step_name allow_subclasses before (waiter ∷ after) (ws, woken) =
      let skip =
        resolve_from step_name allow_subclasses (before ++ (waiter ∷ [])) after (ws, woken) in
      let resolved : StepWorkerWaiter = record waiter { resolved_event = some event } in
      let passed = before ++ (resolved ∷ []) in
      let resume : Emitting (InternalStepWorkerState × Bool) =
        add_or_enqueue_event w now_seconds (resumed_attempt waiter) (root step_name)
          (record ws { collected_waiters = passed ++ after })
        ▷ λ ws'. resolve_from step_name allow_subclasses passed after (ws', true) in
      if satisfies allow_subclasses waiter then resume else skip

  -- The loop over the steps, with the names of the steps that were woken.
  unfoldable pub resolve_waiters :
      Dict InternalStepConfig → BrokerState × List String → Emitting (BrokerState × List String)
  unfolding resolve_from get_worker put_worker
  resolve_waiters [] r = done r
  resolve_waiters ((step_name, step_config) ∷ steps) (state, resolved) =
      get_worker step_name state >>= λ ws.
      resolve_from step_name step_config.accept_event_subclasses [] ws.collected_waiters (ws, false)
      ▷ λ (ws', woken).
          resolve_waiters steps (put_worker step_name ws' state, add_if woken step_name resolved)
