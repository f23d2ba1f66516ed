-- ===== src/Silence/Arrivals.antt =====
-- An incoming event queues no event (`_process_add_event_tick` of
-- workflows/runtime/control_loop/reduce.py).
use llama_agents.Prelude.{
  ℤ, negsuc, String, Bool, true, false, refl, Option, none, some, List, [], ◌∷◌, ◌++◌, Dict, last?,
  lookup, if_case, is_some, member, not, is_empty, ◌||◌,
}
use llama_agents.Types.{
  BrokerState, CollectionBinding, CollectionReleasePayload, CollectionReleaseState, Event,
  InternalStepConfig, InternalStepWorkerState, StepWorkerWaiter, TickAddEvent, World, root,
  deepcopy, binding_for_target, as_event, start_event, input_required_event,
}
use llama_agents.Matching.{isinstance}
use llama_agents.Streams.{adjust_open_work_items}
use llama_agents.AddEvent.{
  route_step, route_to_accepting_steps, after_routing, unhandled_event_commands, deliver_event,
  process_add_event_tick, identify, start_if, is_wanted,
}
use llama_agents.AddEvent.Waiters.{resolve_from, resolve_waiters, resumed_attempt, satisfies}
use llama_agents.AddEvent.Members.{
  fail_targeted, fire_if_released, arrive_at, arrive, member_in_stream,
  route_member_to_collect_step,
}
use llama_agents.AddEvent.Delivery.{
  Routing, attempt_from, redeliver_collection_payload, deliver, after_collect, route_to_worker,
  route_accepted, collects_statically, consume_superseded_delayed_attempt,
}
use llama_agents.Silence.{
  NoQueue, IsSilent, returns_quietly, done_quietly, IsSilent-▷, IsSilent-bind, IsSilent-option,
  IsSilent-if, IsSilent-in_worker, dispatch-IsSilent, fire-IsSilent, adjust-IsSilent,
}

module _ (w : World) (now : ℤ) (event : Event) where
  resolve_from-IsSilent :
      (name : String) (subclasses : Bool) (passed left : List StepWorkerWaiter)
      (r : InternalStepWorkerState × Bool)
      → IsSilent (resolve_from w now event name subclasses passed left r)
  unfolding resolve_from
  resolve_from-IsSilent name subclasses passed [] r = done_quietly r
  resolve_from-IsSilent name subclasses passed (x ∷ left) (ws, woken) =
      IsSilent-if (satisfies w now event subclasses x) _ _
        (IsSilent-▷ _
          (λ ws'.
            resolve_from w now event name subclasses
              (passed ++ record x { resolved_event = some event } ∷ []) left (ws', true))
          (dispatch-IsSilent w now (resumed_attempt x) (root name) (record ws {
            collected_waiters = (passed ++ record x { resolved_event = some event } ∷ []) ++ left;
          }))
          (λ ws'.
            resolve_from-IsSilent name subclasses
              (passed ++ record x { resolved_event = some event } ∷ []) left (ws', true)))
        (resolve_from-IsSilent name subclasses (passed ++ x ∷ []) left (ws, woken))

  pub resolve_waiters-IsSilent :
      (steps : Dict InternalStepConfig) (r : BrokerState × List String)
      → IsSilent (resolve_waiters w now event steps r)
  unfolding resolve_waiters
  resolve_waiters-IsSilent [] r = done_quietly r
  resolve_waiters-IsSilent ((name, config) ∷ steps) (s, names) = IsSilent-bind _ _ (λ ws.
      IsSilent-▷ _ _
        (resolve_from-IsSilent name config.accept_event_subclasses [] ws.collected_waiters
          (ws, false))
        (λ (ws', woken). resolve_waiters-IsSilent steps _))

module _ (w : World) (now : ℤ) (tick : TickAddEvent) where
  released-IsSilent :
      (step_name stream_id : String) (binding : CollectionBinding) (ws : InternalStepWorkerState)
      (release : Option (List Event)) (s : BrokerState)
      → IsSilent (fire_if_released w now tick step_name stream_id binding ws release s)
  unfolding fire_if_released
  released-IsSilent step_name stream_id binding ws none s = done_quietly s
  released-IsSilent step_name stream_id binding ws (some events) s =
      IsSilent-in_worker _ _ _ (fire-IsSilent w now binding stream_id ws events _)

  arrive_at-IsSilent :
      (step_name stream_id : String) (binding : CollectionBinding) (ws : InternalStepWorkerState)
      (release : CollectionReleaseState) (s : BrokerState)
      → IsSilent (arrive_at w now tick step_name stream_id binding ws release s)
  unfolding arrive_at
  arrive_at-IsSilent step_name stream_id binding ws release s =
      IsSilent-if release.released _ _ (done_quietly s)
        (released-IsSilent step_name stream_id binding ws _ _)

  member-IsSilent :
      (step_name stream_id : String) (ws : InternalStepWorkerState) (s : BrokerState)
      → IsSilent (member_in_stream w now tick step_name stream_id ws s)
  unfolding member_in_stream arrive
  member-IsSilent step_name stream_id ws s =
      IsSilent-▷ _ (adjust_open_work_items w now (some stream_id) (negsuc 0))
        (IsSilent-option (binding_for_target s.config stream_id step_name s.streams) _ _
          (done_quietly s) (λ binding. arrive_at-IsSilent step_name stream_id binding ws _ _))
        (λ s'. adjust-IsSilent w now (some stream_id) (negsuc 0) s')

  route_member-IsSilent :
      (step_name : String) (ws : InternalStepWorkerState) (s : BrokerState)
      → IsSilent (route_member_to_collect_step w now tick step_name ws s)
  unfolding route_member_to_collect_step fail_targeted
  route_member-IsSilent step_name ws s =
      IsSilent-option (last? tick.scope_path) _ _
        (IsSilent-if (is_some tick.step_id) _ _ (returns_quietly _ _ (refl, (refl, tt)))
          (done_quietly _))
        (λ stream_id.
          IsSilent-▷ _ _ (member-IsSilent step_name stream_id ws s) (λ s'. done_quietly _))

  deliver-IsSilent :
      (step_name : String) (bound : Option (Dict Event)) (ws : InternalStepWorkerState)
      (s : BrokerState)
      → IsSilent (deliver w now tick step_name bound ws s)
  unfolding deliver
  deliver-IsSilent step_name bound ws s =
      IsSilent-▷ _ _
        (IsSilent-in_worker _ _ _
          (dispatch-IsSilent w now (attempt_from tick tick.event bound) (root step_name) ws))
        (λ s'. done_quietly _)

  after_collect-IsSilent :
      (step_name : String) (s : BrokerState) (r : InternalStepWorkerState × Option (Dict Event))
      → IsSilent (after_collect w now tick step_name s r)
  unfolding after_collect
  after_collect-IsSilent step_name s (ws, some bound) = deliver-IsSilent step_name (some bound) ws s
  after_collect-IsSilent step_name s (ws, none) =
      IsSilent-▷ _ _ (adjust-IsSilent w now (last? tick.scope_path) (negsuc 0) _)
        (λ s'. done_quietly _)

  routed-IsSilent :
      (step_name : String) (ws : InternalStepWorkerState) (s : BrokerState)
      → IsSilent (route_to_worker w now tick step_name ws s)
  unfolding route_to_worker
  routed-IsSilent step_name ws s =
      IsSilent-if (collects_statically w now tick (consume_superseded_delayed_attempt tick ws)) _ _
        (IsSilent-bind _ _ (λ r. after_collect-IsSilent step_name s r))
        (deliver-IsSilent step_name tick.bound_events (consume_superseded_delayed_attempt tick ws)
          s)

  accepted-IsSilent :
      (step_name : String) (s : BrokerState) → IsSilent (route_accepted w now tick step_name s)
  unfolding route_accepted
  accepted-IsSilent step_name s = IsSilent-bind _ _ (λ ws.
      IsSilent-if (is_some ws.config.collection_param) _ _
        (IsSilent-▷ _ _ (route_member-IsSilent step_name ws s) (λ r. done_quietly _))
        (routed-IsSilent step_name ws s))

  step-IsSilent :
      (resolved : List String) (step_name : String) (config : InternalStepConfig) (r : Routing)
      → IsSilent (route_step w now tick resolved step_name config r)
  unfolding route_step
  step-IsSilent resolved step_name config r =
      IsSilent-if (member resolved step_name) _ _
        (IsSilent-if (is_wanted w now tick step_name config) _ _
          (IsSilent-▷ _ _ (adjust-IsSilent w now (last? tick.scope_path) (negsuc 0) r.state)
            (λ s'. done_quietly _))
          (done_quietly r))
        (IsSilent-if (is_wanted w now tick step_name config) _ _
          (accepted-IsSilent step_name r.state) (done_quietly r))

  steps-IsSilent :
      (resolved : List String) (steps : Dict InternalStepConfig) (r : Routing)
      → IsSilent (route_to_accepting_steps w now tick resolved steps r)
  unfolding route_to_accepting_steps
  steps-IsSilent resolved [] r = done_quietly r
  steps-IsSilent resolved ((step_name, config) ∷ steps) r =
      IsSilent-▷ _ _ (step-IsSilent resolved step_name config r)
        (λ r'. IsSilent-if r'.failed _ _ (done_quietly r') (steps-IsSilent resolved steps r'))

  unhandled_quietly : (s : BrokerState) → NoQueue (unhandled_event_commands w now tick s)
  unfolding unhandled_event_commands
  unhandled_quietly s =
      if_case (λ cs. NoQueue cs) (isinstance w tick.event input_required_event) _ _ (λ h. tt)
        (λ h. (refl, tt))

  after-IsSilent :
      (resolved : List String) (r : Routing) → IsSilent (after_routing w now tick resolved r)
  unfolding after_routing
  after-IsSilent resolved r =
      IsSilent-if (r.failed || not (is_empty resolved) || r.handled) _ _ (done_quietly r.state)
        (returns_quietly r.state _ (unhandled_quietly r.state))

  redeliver-IsSilent :
      (payload : CollectionReleasePayload) (s : BrokerState)
      → IsSilent (redeliver_collection_payload w now tick payload s)
  unfolding redeliver_collection_payload
  redeliver-IsSilent payload s =
      IsSilent-option (lookup payload.binding_id s.config.collection_bindings) _ _
        (record { quiet = tt })
        (λ binding. IsSilent-bind _ _ (λ ws. IsSilent-in_worker _ _ _ (
          dispatch-IsSilent w now
            (record (attempt_from tick (as_event payload) none) {
              collection_release_payload = some payload;
            })
            (root binding.target_step) ws)))

  delivery-IsSilent : (s : BrokerState) → IsSilent (deliver_event w now tick s)
  unfolding deliver_event
  delivery-IsSilent s =
      IsSilent-option tick.collection_release_payload _ _
        (IsSilent-▷ _ _ (resolve_waiters-IsSilent w now tick.event s.config.steps (s, []))
          (λ (resumed, names).
            IsSilent-▷ _ _ (steps-IsSilent names s.config.steps _) (λ r. after-IsSilent names r)))
        (λ payload. redeliver-IsSilent payload s)

pub add_event-IsSilent :
    (w : World) (now : ℤ) (tick : TickAddEvent) (s : BrokerState)
    → IsSilent (process_add_event_tick w now tick s)
unfolding process_add_event_tick
add_event-IsSilent w now tick s =
    delivery-IsSilent w now (identify tick (deepcopy s)).0
      (start_if (isinstance w tick.event start_event) (identify tick (deepcopy s)).1)
