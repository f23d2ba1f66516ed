-- ===== src/AddEvent.antt =====
-- An incoming event: `_process_add_event_tick` and its parts, of
-- workflows/runtime/control_loop/reduce.py. The child `Waiters` resolves waiters, and the child
-- `Members` has the arrivals at collect steps, `Delivery` what one accepting step is given.
pub mod Waiters
pub mod Members
pub mod Delivery
use Prim.Native.String.{◌++◌ as text_append}
use mathlib.Core.Option
use llama_agents.Prelude.{
  ℕ, zero, suc, ◌+◌, ◌==◌, ℤ, negsuc, String, Bool, true, false, not, ◌&&◌, ◌||◌, Option, none,
  some, List, [], ◌∷◌, ◌++◌, last?, remove_first, member, str_eq, is_none, is_some, is_empty,
  if◌then◌else◌, Dict, lookup, Result, ok, raise, ◌>>=◌, decimal,
}
use llama_agents.Types.{
  Event, class_of, same_class, start_event, input_required_event, unhandled, unknown_binding, World,
  BrokerState, EventAttempt, InternalStepConfig, InternalStepWorkerState, StepId, root, step_key,
  TickAddEvent, WorkflowCommand, publish_event, CollectionReleasePayload, as_event,
  payload_work_item_id, deepcopy, runtime_error,
}
use llama_agents.Effects.{Emitting, Reduced, ◌▷◌, done, in_worker, prepend, put_worker}
use llama_agents.Matching.{isinstance, step_accepts_event}
use llama_agents.Dispatch.{add_or_enqueue_event}
use llama_agents.Streams.{adjust_open_work_items}
use llama_agents.StaticCollect.{static_collect_events}
use llama_agents.Stuck.{check_idle_state}
use llama_agents.StepResult.Threading.{get_worker}
use Waiters.{resolve_waiters}
use Delivery.{
  Routing, after_collect, attempt_from, collects_statically, consume_superseded_delayed_attempt,
  deliver, going, has_params, is_retry, is_superseded, is_targeted, redeliver_collection_payload,
  route_accepted, route_to_worker, same_attempts,
}

module _ (w : World) (now_seconds : ℤ) (tick : TickAddEvent) where
  -- `is_accepted and is_targeted`
  unfoldable pub is_wanted : String → InternalStepConfig → Bool
  unfolding is_targeted step_accepts_event
  is_wanted step_name step_config =
      step_accepts_event w step_config.accept_event_subclasses tick.event
        step_config.accepted_events
      && is_targeted tick step_name

  -- The body of the loop over the steps.
  unfoldable pub route_step : List String → String → InternalStepConfig → Routing → Emitting Routing
  unfolding is_wanted route_accepted adjust_open_work_items
  route_step waiter_resolved_steps step_name step_config r =
      let wanted = is_wanted step_name step_config in
      if member waiter_resolved_steps step_name
      then if wanted
        then (adjust_open_work_items w now_seconds (last? tick.scope_path) (negsuc 0) r.state
            ▷ λ state'. done (record r { state = state' }))
        else done r
      else if wanted
      then route_accepted w now_seconds tick step_name r.state
      else done r

  unfoldable pub route_to_accepting_steps :
      List String → Dict InternalStepConfig → Routing → Emitting Routing
  unfolding route_step
  route_to_accepting_steps resolved [] r = done r
  route_to_accepting_steps resolved ((step_name, step_config) ∷ steps) r =
      route_step resolved step_name step_config r ▷ λ r'.
      let rest = route_to_accepting_steps resolved steps r' in if r'.failed then done r' else rest

  unfoldable pub unhandled_event_commands : BrokerState → List WorkflowCommand
  unfolding check_idle_state
  unhandled_event_commands state =
      let event_cls = class_of tick.event in
      if isinstance w tick.event input_required_event
      then []
      else publish_event (
          unhandled (w.class_name event_cls)
            (text_append (w.class_module event_cls) (text_append "." (w.class_name event_cls)))
            (Option.map step_key tick.step_id) (check_idle_state state))
        ∷ []

  unfoldable pub after_routing : List String → Routing → Reduced
  unfolding unhandled_event_commands
  after_routing waiter_resolved_steps r =
      if r.failed || not (is_empty waiter_resolved_steps) || r.handled
      then done r.state
      else ok (r.state, unhandled_event_commands r.state)

  -- The phases behind the minting of the work item id.
  unfoldable pub deliver_event : BrokerState → Reduced
  unfolding redeliver_collection_payload resolve_waiters route_to_accepting_steps after_routing
  deliver_event state = elim tick.collection_release_payload [
    | some payload ↦ redeliver_collection_payload w now_seconds tick payload state
    | none ↦
        resolve_waiters w now_seconds tick.event state.config.steps (state, [])
        ▷ λ (resumed, waiter_resolved_steps).
            route_to_accepting_steps waiter_resolved_steps state.config.steps
              (record { state = resumed; handled = false; failed = false })
            ▷ after_routing waiter_resolved_steps
  ]

-- `_next_work_item_id`
unfoldable pub next_work_item_id : BrokerState → BrokerState × String
next_work_item_id state =
    let seq = state.work_item_seq + 1 in
    (record state { work_item_seq = seq }, text_append "work_item_" (decimal seq))

-- The tick with its work item id, and the state in which the id was minted.
unfoldable pub identify : TickAddEvent → BrokerState → TickAddEvent × BrokerState
unfolding next_work_item_id payload_work_item_id
identify tick state = elim tick.work_item_id [
  | some id ↦ (tick, state)
  | none ↦ elim tick.collection_release_payload [
    | some payload ↦ (record tick { work_item_id = some (payload_work_item_id payload) }, state)
    | none ↦
        let (state', id) = next_work_item_id state in
        (record tick { work_item_id = some id }, state')
  ]
]

unfoldable pub start_if : Bool → BrokerState → BrokerState
start_if true state = record state { is_running = true }
start_if false state = state

unfoldable pub process_add_event_tick : World → ℤ → TickAddEvent → BrokerState → Reduced
unfolding identify start_if deliver_event
process_add_event_tick w now_seconds tick init =
    let (tick', state) = identify tick (deepcopy init) in
    deliver_event w now_seconds tick' (start_if (isinstance w tick.event start_event) state)
