-- ===== src/AddEvent/Delivery.antt =====
-- The delivery of an event to one step that accepts it (`_route_to_accepting_steps`,
-- `_redeliver_collection_payload` and `_consume_superseded_delayed_attempt` of
-- workflows/runtime/control_loop/reduce.py).
use llama_agents.Prelude.{
  ℕ, zero, suc, ◌==◌, ℤ, negsuc, String, Bool, true, false, not, ◌&&◌, Option, none, some, List,
  last?, remove_first, str_eq, is_none, is_some, is_empty, if◌then◌else◌, Dict, lookup, raise,
  ◌>>=◌,
}
use llama_agents.Types.{
  Event, class_of, same_class, unknown_binding, World, BrokerState, EventAttempt,
  InternalStepWorkerState, root, step_key, TickAddEvent, CollectionReleasePayload, as_event,
  runtime_error,
}
use llama_agents.Effects.{Emitting, Reduced, ◌▷◌, done, in_worker, put_worker}
use llama_agents.Dispatch.{add_or_enqueue_event}
use llama_agents.Streams.{adjust_open_work_items}
use llama_agents.StaticCollect.{static_collect_events}
use llama_agents.StepResult.Threading.{get_worker}
use llama_agents.AddEvent.Members.{route_member_to_collect_step}

-- The attempt that a tick asks for.
unfoldable pub attempt_from : TickAddEvent → Event → Option (Dict Event) → EventAttempt
attempt_from tick event bound_events = record {
  event = event;
  bound_events = bound_events;
  attempts = tick.attempts;
  first_attempt_at = tick.first_attempt_at;
  last_exception = tick.last_exception;
  last_failed_at = tick.last_failed_at;
  recovery_counts = tick.recovery_counts;
  not_before = none;
  scope_path = tick.scope_path;
  collection_release_payload = none;
  work_item_id = tick.work_item_id;
}

-- `if not tick.attempts`
unfoldable pub is_retry : Option ℕ → Bool
is_retry none = false
is_retry (some zero) = false
is_retry (some (suc n)) = true

unfoldable pub same_attempts : Option ℕ → Option ℕ → Bool
same_attempts (some m) (some n) = m == n
same_attempts none none = true
same_attempts _ _ = false

-- A queued delayed attempt that stands for the same retry as the tick of an old journal.
unfoldable pub is_superseded : TickAddEvent → EventAttempt → Bool
unfolding same_attempts
is_superseded tick a =
    is_some a.not_before
    && same_attempts a.attempts tick.attempts
    && same_class (class_of a.event) (class_of tick.event)

unfoldable pub consume_superseded_delayed_attempt :
    TickAddEvent → InternalStepWorkerState → InternalStepWorkerState
unfolding is_retry is_superseded
consume_superseded_delayed_attempt tick ws =
    if is_retry tick.attempts
    then record ws { queue = remove_first (is_superseded tick) ws.queue }
    else ws

-- The truth of an optional list: an empty list is false.
abbrev pub has_params {ℓ} : {A : Type ℓ} → Option (List A) → Bool
has_params none = false
has_params (some params) = not (is_empty params)

-- Where the routing loop stands.
pub record Routing : Type 0 where
  pub state : BrokerState
  pub handled : Bool
  pub failed : Bool

-- After a step that accepted the event.
abbrev pub going : BrokerState → Bool → Routing
going state failed = record { state = state; handled = true; failed = failed }

unfoldable pub is_targeted : TickAddEvent → String → Bool
is_targeted tick step_name = elim tick.step_id [
  | none ↦ true
  | some id ↦ str_eq (step_key id) step_name
]

module _ (w : World) (now_seconds : ℤ) (tick : TickAddEvent) where
  unfoldable pub redeliver_collection_payload : CollectionReleasePayload → BrokerState → Reduced
  unfolding attempt_from as_event add_or_enqueue_event get_worker
  redeliver_collection_payload payload state =
      elim (lookup payload.binding_id state.config.collection_bindings) [
        | none ↦ raise (runtime_error (unknown_binding payload.binding_id payload.stream_id))
        | some binding ↦ get_worker binding.target_step state >>= λ ws.
            in_worker binding.target_step state (
              add_or_enqueue_event w now_seconds
                (record (attempt_from tick (as_event payload) none) {
                  collection_release_payload = some payload;
                })
                (root binding.target_step) ws)
      ]

  -- The statement of the loop that adds or enqueues the event.
  unfoldable pub deliver :
      String → Option (Dict Event) → InternalStepWorkerState → BrokerState → Emitting Routing
  unfolding attempt_from add_or_enqueue_event
  deliver step_name bound_events ws state =
      in_worker step_name state (
        add_or_enqueue_event w now_seconds (attempt_from tick tick.event bound_events)
          (root step_name) ws)
      ▷ λ state'. done (going state' false)

  -- An event that only filled a slot is consumed as a work item.
  unfoldable pub after_collect :
      String → BrokerState → InternalStepWorkerState × Option (Dict Event) → Emitting Routing
  unfolding deliver put_worker adjust_open_work_items
  after_collect step_name state (ws, some bound) = deliver step_name (some bound) ws state
  after_collect step_name state (ws, none) =
      adjust_open_work_items w now_seconds (last? tick.scope_path) (negsuc 0)
        (put_worker step_name ws state)
      ▷ λ state'. done (going state' false)

  -- `bound_events is None and worker_state.config.collect_params`
  unfoldable pub collects_statically : InternalStepWorkerState → Bool
  collects_statically ws = is_none tick.bound_events && has_params ws.config.collect_params

  unfoldable pub route_to_worker : String → InternalStepWorkerState → BrokerState → Emitting Routing
  unfolding consume_superseded_delayed_attempt collects_statically static_collect_events
      after_collect deliver
  route_to_worker step_name worker_state state =
      let ws = consume_superseded_delayed_attempt tick worker_state in
      if collects_statically ws
      then static_collect_events w tick.event ws >>= after_collect step_name state
      else deliver step_name tick.bound_events ws state

  -- A step that accepts the event and is its target.
  unfoldable pub route_accepted : String → BrokerState → Emitting Routing
  unfolding route_member_to_collect_step route_to_worker get_worker
  route_accepted step_name state = get_worker step_name state >>= λ worker_state.
      if is_some worker_state.config.collection_param
      then (route_member_to_collect_step w now_seconds tick step_name worker_state state
          ▷ λ (state', failed). done (going state' failed))
      else route_to_worker step_name worker_state state
