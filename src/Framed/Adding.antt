-- ===== src/Framed/Adding.antt =====
-- `_process_add_event_tick` of workflows/runtime/control_loop/reduce.py keeps a predicate of the
-- state.
use llama_agents.Prelude.{
  ℤ, negsuc, inl, inr, String, Bool, true, false, ◌||◌, not, Option, none, some, List, [], ◌∷◌,
  Option-cases, last?, is_some, is_empty, member, Dict, ok, Ensures-bind,
}
use llama_agents.Types.{
  BrokerState, InternalStepWorkerState, InternalStepConfig, World, Event, TickAddEvent, deepcopy,
  start_event,
}
use llama_agents.Effects.{Keeps, done, Keeps-done, Keeps-▷, Keeps-if, put_worker}
use llama_agents.Matching.{isinstance}
use llama_agents.StaticCollect.{static_collect_events}
use llama_agents.AddEvent.{
  route_step, route_to_accepting_steps, after_routing, deliver_event, identify, start_if,
  process_add_event_tick, is_wanted, unhandled_event_commands,
}
use llama_agents.AddEvent.Delivery.{
  Routing, going, consume_superseded_delayed_attempt, deliver, after_collect, collects_statically,
  route_to_worker, route_accepted,
}
use llama_agents.Framed.Interface.{StateInvariant, put-Q, in_worker-Q, deepcopy-Q, get_worker-Keeps}
use llama_agents.Effects.{Keeps-▷, Keeps-if, Keeps-done, Keeps}
use llama_agents.Prelude.{Ensures-bind}
use llama_agents.Types.{WorkflowCommand}
use llama_agents.AddEvent.{next_work_item_id}
use llama_agents.Framed.Arrivals.{resolve_waiters-Q, redeliver-Q, route_member-Q}

module _ (w : World) (now : ℤ) (Q : BrokerState → Type 0) (inv : StateInvariant w now Q) where
  module _ (tick : TickAddEvent) where
    abbrev Routes : Routing → Type 0
    Routes r = Q r.state

    deliver-Q :
        (name : String) (bound : Option (Dict Event)) (ws : InternalStepWorkerState)
        (s : BrokerState)
        → Q s
        → Keeps Routes (deliver w now tick name bound ws s)
    unfolding deliver
    deliver-Q name bound ws s q =
        Keeps-done Q Routes _ (λ s'. going s' false) (in_worker-Q w now Q inv name s _ q)
          (λ s' q'. q')

    after_collect-Q :
        (name : String) (s : BrokerState) (r : InternalStepWorkerState × Option (Dict Event))
        → Q s
        → Keeps Routes (after_collect w now tick name s r)
    unfolding after_collect
    after_collect-Q name s (ws, some bound) q = deliver-Q name (some bound) ws s q
    after_collect-Q name s (ws, none) q =
        Keeps-done Q Routes _ (λ s'. going s' false)
          (inv.adjusted (last? tick.scope_path) (negsuc 0) (put_worker name ws s)
            (put-Q w now Q inv name ws s q))
          (λ s' q'. q')

    route_to_worker-Q :
        (name : String) (ws : InternalStepWorkerState) (s : BrokerState)
        → Q s
        → Keeps Routes (route_to_worker w now tick name ws s)
    unfolding route_to_worker
    route_to_worker-Q name ws s q =
        let ws' = consume_superseded_delayed_attempt tick ws in
        Keeps-if Routes (collects_statically w now tick ws') _ _
          (λ static.
            Ensures-bind (λ (r : Routing × List WorkflowCommand). Routes r.0)
              (static_collect_events w tick.event ws') _ (λ r. after_collect-Q name s r q))
          (λ plain. deliver-Q name tick.bound_events ws' s q)

    route_accepted-Q :
        (name : String) (s : BrokerState) → Q s → Keeps Routes (route_accepted w now tick name s)
    unfolding route_accepted
    route_accepted-Q name s q = get_worker-Keeps Routes name s _ (λ ws.
        Keeps-if Routes (is_some ws.config.collection_param) _ _
          (λ collects.
            Keeps-done (λ (r : BrokerState × Bool). Q r.0) Routes _ (λ r. going r.0 r.1)
              (route_member-Q w now Q inv tick name ws s q) (λ r q'. q'))
          (λ ordinary. route_to_worker-Q name ws s q))

    route_step-Q :
        (resolved : List String) (name : String) (config : InternalStepConfig) (r : Routing)
        → Q r.state
        → Keeps Routes (route_step w now tick resolved name config r)
    unfolding route_step
    route_step-Q resolved name config r q =
        Keeps-if Routes (member resolved name) _ _
          (λ woken.
            Keeps-if Routes (is_wanted w now tick name config) _ (done r)
              (λ wanted.
                Keeps-done Q Routes _ (λ s'. record r { state = s' })
                  (inv.adjusted (last? tick.scope_path) (negsuc 0) r.state q) (λ s' q'. q'))
              (λ unwanted. q))
          (λ asleep.
            Keeps-if Routes (is_wanted w now tick name config) _ (done r)
              (λ wanted. route_accepted-Q name r.state q) (λ unwanted. q))

    route-Q :
        (resolved : List String) (steps : Dict InternalStepConfig) (r : Routing)
        → Q r.state
        → Keeps Routes (route_to_accepting_steps w now tick resolved steps r)
    unfolding route_to_accepting_steps
    route-Q resolved [] r q = q
    route-Q resolved ((name, config) ∷ steps) r q =
        Keeps-▷ Routes Routes _ _ (route_step-Q resolved name config r q) (λ r' q'.
          Keeps-if Routes r'.failed (done r') _ (λ failed. q')
            (λ going_on. route-Q resolved steps r' q'))

    after_routing-Q :
        (resolved : List String) (r : Routing)
        → Q r.state
        → Keeps Q (after_routing w now tick resolved r)
    unfolding after_routing
    after_routing-Q resolved r q =
        Keeps-if Q (r.failed || not (is_empty resolved) || r.handled) (done r.state)
          (ok (r.state, unhandled_event_commands w now tick r.state)) (λ handled. q)
          (λ unhandled. q)

    deliver_event-Q : (s : BrokerState) → Q s → Keeps Q (deliver_event w now tick s)
    unfolding deliver_event
    deliver_event-Q s q = elim (Option-cases tick.collection_release_payload) [
      | inr (payload, e) ↦ rw (e, deliver_event) (redeliver-Q w now Q inv tick payload s q)
      | inl none_carried ↦
          rw (none_carried, deliver_event)
            (Keeps-▷ (λ (r : BrokerState × List String). Q r.0) Q _ _
              (resolve_waiters-Q w now Q inv tick.event s.config.steps s [] q)
              (λ (s', resolved) q'.
                Keeps-▷ Routes Q _ _
                  (route-Q resolved s.config.steps
                    (record { state = s'; handled = false; failed = false }) q')
                  (after_routing-Q resolved)))
    ]

  identify-Q : (tick : TickAddEvent) (s : BrokerState) → Q s → Q (identify tick s).1
  unfolding identify next_work_item_id
  identify-Q tick s q = elim (Option-cases tick.work_item_id) [
    | inr (id, e) ↦ rw (e, identify) q
    | inl unnamed ↦ elim (Option-cases tick.collection_release_payload) [
      | inr (payload, e) ↦ rw (unnamed, identify, e) q
      | inl ordinary ↦ rw (unnamed, identify, ordinary) (inv.next_work_item s q)
    ]
  ]

  start_if-Q : (b : Bool) (s : BrokerState) → Q s → Q (start_if b s)
  unfolding start_if
  start_if-Q true s q = inv.with_running s true q
  start_if-Q false s q = q

  pub process_add_event_tick-Q :
      (tick : TickAddEvent) (s : BrokerState) → Q s → Keeps Q (process_add_event_tick w now tick s)
  unfolding process_add_event_tick
  process_add_event_tick-Q tick s q =
      deliver_event-Q (identify tick (deepcopy s)).0
        (start_if (isinstance w tick.event start_event) (identify tick (deepcopy s)).1)
        (start_if-Q _ _ (identify-Q tick (deepcopy s) (deepcopy-Q w now Q inv s q)))
