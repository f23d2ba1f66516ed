-- ===== src/Invariant/Adding.antt =====
-- An incoming event (workflows/runtime/control_loop/reduce.py, `_process_add_event_tick`) keeps every
-- invariant of the workers.
use llama_agents.Prelude.{
  ℕ, ℤ, negsuc, inl, inr, String, Bool, true, false, ◌||◌, not, Option, none, some, List, [], ◌∷◌,
  Option-cases, last?, is_some, is_empty, member, Dict, ok, Ensures, Ensures-bind,
}
use llama_agents.Types.{
  BrokerState, InternalStepWorkerState, InternalStepConfig, World, Event, TickAddEvent, Class,
  deepcopy, root, start_event,
}
use llama_agents.Effects.{
  Keeps, Gives, done, Gives-done, Keeps-done, Keeps-bind, Keeps-▷, Keeps-if, Keeps-Gives,
}
use llama_agents.Matching.{isinstance}
use llama_agents.StaticCollect.{static_collect_events, take_batch, bind_batch, drop_selected}
use llama_agents.AddEvent.{
  route_step, route_to_accepting_steps, after_routing, deliver_event, identify, start_if,
  process_add_event_tick, is_wanted, unhandled_event_commands,
}
use llama_agents.AddEvent.Delivery.{
  Routing, going, attempt_from, consume_superseded_delayed_attempt, deliver, after_collect,
  collects_statically, route_to_worker, route_accepted,
}
use llama_agents.Invariant.Local.{
  LocalInvariant, AllWorkers, AllWorkers-put, in_worker-AllWorkers, Keeps-get_worker,
  deepcopy-AllWorkers,
}
use llama_agents.Invariant.Streaming.{adjust_open_work_items-AllWorkers}
use llama_agents.Invariant.Arriving.{
  resolve_waiters-AllWorkers, redeliver-AllWorkers, route_member-AllWorkers,
}

module _ (w : World) (now : ℤ) (P : InternalStepWorkerState → Type 0)
    (inv : LocalInvariant w now P) where
  module _ (tick : TickAddEvent) where
    abbrev Routes : Routing → Type 0
    Routes r = AllWorkers P r.state

    deliver-AllWorkers :
        (name : String) (bound : Option (Dict Event)) (ws : InternalStepWorkerState)
        (s : BrokerState)
        → AllWorkers P s
        → P ws
        → Gives Routes (deliver w now tick name bound ws s)
    unfolding deliver
    deliver-AllWorkers name bound ws s h p =
        Gives-done (AllWorkers P) Routes _ (λ s'. going s' false)
          (in_worker-AllWorkers P name s _ h
            (inv.dispatch (attempt_from tick tick.event bound) (root name) ws p))
          (λ s' h'. h')

    after_collect-AllWorkers :
        (name : String) (s : BrokerState) (ws : InternalStepWorkerState)
        (bound : Option (Dict Event))
        → AllWorkers P s
        → P ws
        → Gives Routes (after_collect w now tick name s (ws, bound))
    unfolding after_collect
    after_collect-AllWorkers name s ws (some bound) h p =
        deliver-AllWorkers name (some bound) ws s h p
    after_collect-AllWorkers name s ws none h p =
        Gives-done (AllWorkers P) Routes _ (λ s'. going s' false)
          (adjust_open_work_items-AllWorkers w now P inv (last? tick.scope_path) (negsuc 0) _
            (AllWorkers-put P name ws s p h))
          (λ s' h'. h')

    take_batch-P :
        (ws : InternalStepWorkerState) (pending : List Event) (params : List (String × Class))
        (selected : Option (List ℕ))
        → P ws
        → Ensures (λ r. P r.0) (take_batch ws pending params selected)
    unfolding take_batch
    take_batch-P ws pending params none p = inv.with_statics ws pending p
    take_batch-P ws pending params (some selected) p =
        Ensures-bind (λ r. P r.0) (bind_batch pending params selected []) _
          (λ binding. inv.with_statics ws (drop_selected 0 pending selected) p)

    statics-P :
        (ws : InternalStepWorkerState)
        → P ws
        → Ensures (λ r. P r.0) (static_collect_events w tick.event ws)
    unfolding static_collect_events
    statics-P ws p = elim (Option-cases ws.config.collect_params) [
      | inl nothing ↦ rw (nothing, static_collect_events) p
      | inr (params, e) ↦ rw (e, static_collect_events) (take_batch-P ws _ params _ p)
    ]

    route_to_worker-AllWorkers :
        (name : String) (ws : InternalStepWorkerState) (s : BrokerState)
        → AllWorkers P s
        → P ws
        → Keeps Routes (route_to_worker w now tick name ws s)
    unfolding route_to_worker
    route_to_worker-AllWorkers name ws s h p =
        let ws' = consume_superseded_delayed_attempt tick ws in
        let p' = inv.superseded tick ws p in
        Keeps-if Routes (collects_statically w now tick ws') _ _
          (λ static.
            Keeps-bind (λ r. P r.0) Routes _ _ (statics-P ws' p')
              (λ (ws'', bound) p''.
                Keeps-Gives Routes _ (after_collect-AllWorkers name s ws'' bound h p'')))
          (λ plain. Keeps-Gives Routes _ (deliver-AllWorkers name tick.bound_events ws' s h p'))

    route_accepted-AllWorkers :
        (name : String) (s : BrokerState)
        → AllWorkers P s
        → Keeps Routes (route_accepted w now tick name s)
    unfolding route_accepted
    route_accepted-AllWorkers name s h = Keeps-get_worker P Routes name s _ h (λ ws p.
        Keeps-if Routes (is_some ws.config.collection_param) _ _
          (λ collects.
            Keeps-done (λ (r : BrokerState × Bool). AllWorkers P r.0) Routes _ (λ r. going r.0 r.1)
              (Keeps-Gives (λ (r : BrokerState × Bool). AllWorkers P r.0) _
                (route_member-AllWorkers w now P inv tick name ws s h p))
              (λ r h'. h'))
          (λ ordinary. route_to_worker-AllWorkers name ws s h p))

    route_step-AllWorkers :
        (resolved : List String) (name : String) (config : InternalStepConfig) (r : Routing)
        → AllWorkers P r.state
        → Keeps Routes (route_step w now tick resolved name config r)
    unfolding route_step
    route_step-AllWorkers resolved name config r h =
        Keeps-if Routes (member resolved name) _ _
          (λ woken.
            Keeps-if Routes (is_wanted w now tick name config) _ (done r)
              (λ wanted.
                Keeps-done (AllWorkers P) Routes _ (λ s'. record r { state = s' })
                  (Keeps-Gives (AllWorkers P) _ (
                    adjust_open_work_items-AllWorkers w now P inv (last? tick.scope_path) (negsuc 0)
                      r.state h))
                  (λ s' h'. h'))
              (λ unwanted. h))
          (λ asleep.
            Keeps-if Routes (is_wanted w now tick name config) _ (done r)
              (λ wanted. route_accepted-AllWorkers name r.state h) (λ unwanted. h))

    route-AllWorkers :
        (resolved : List String) (steps : Dict InternalStepConfig) (r : Routing)
        → AllWorkers P r.state
        → Keeps Routes (route_to_accepting_steps w now tick resolved steps r)
    unfolding route_to_accepting_steps
    route-AllWorkers resolved [] r h = h
    route-AllWorkers resolved ((name, config) ∷ steps) r h =
        Keeps-▷ Routes Routes _ _ (route_step-AllWorkers resolved name config r h) (λ r' h'.
          Keeps-if Routes r'.failed (done r') _ (λ failed. h')
            (λ going_on. route-AllWorkers resolved steps r' h'))

    after_routing-AllWorkers :
        (resolved : List String) (r : Routing)
        → AllWorkers P r.state
        → Keeps (AllWorkers P) (after_routing w now tick resolved r)
    unfolding after_routing
    after_routing-AllWorkers resolved r h =
        Keeps-if (AllWorkers P) (r.failed || not (is_empty resolved) || r.handled) (done r.state)
          (ok (r.state, unhandled_event_commands w now tick r.state)) (λ handled. h)
          (λ unhandled. h)

    deliver_event-AllWorkers :
        (s : BrokerState) → AllWorkers P s → Keeps (AllWorkers P) (deliver_event w now tick s)
    unfolding deliver_event
    deliver_event-AllWorkers s h = elim (Option-cases tick.collection_release_payload) [
      | inr (payload, e) ↦ rw (e, deliver_event) (redeliver-AllWorkers w now P inv tick payload s h)
      | inl none_carried ↦
          rw (none_carried, deliver_event)
            (Keeps-▷ (λ r. AllWorkers P r.0) (AllWorkers P) _ _
              (resolve_waiters-AllWorkers w now P inv tick.event s.config.steps s [] h)
              (λ (s', resolved) h'.
                Keeps-▷ Routes (AllWorkers P) _ _
                  (route-AllWorkers resolved s.config.steps
                    (record { state = s'; handled = false; failed = false }) h')
                  (after_routing-AllWorkers resolved)))
    ]

  identify-AllWorkers :
      (tick : TickAddEvent) (s : BrokerState) → AllWorkers P s → AllWorkers P (identify tick s).1
  unfolding identify
  identify-AllWorkers tick s h = elim (Option-cases tick.work_item_id) [
    | inr (id, e) ↦ rw (e, identify) h
    | inl unnamed ↦ elim (Option-cases tick.collection_release_payload) [
      | inr (payload, e) ↦ rw (unnamed, identify, e) h
      | inl ordinary ↦ rw (unnamed, identify, ordinary) h
    ]
  ]

  start_if-AllWorkers : (b : Bool) (s : BrokerState) → AllWorkers P s → AllWorkers P (start_if b s)
  unfolding start_if
  start_if-AllWorkers true s h = h
  start_if-AllWorkers false s h = h

  pub process_add_event_tick-AllWorkers :
      (tick : TickAddEvent) (s : BrokerState)
      → AllWorkers P s
      → Keeps (AllWorkers P) (process_add_event_tick w now tick s)
  unfolding process_add_event_tick
  process_add_event_tick-AllWorkers tick s h =
      let copied = deepcopy-AllWorkers P inv.copy s h in
      deliver_event-AllWorkers (identify tick (deepcopy s)).0
        (start_if (isinstance w tick.event start_event) (identify tick (deepcopy s)).1)
        (start_if-AllWorkers _ _ (identify-AllWorkers tick (deepcopy s) copied))
