-- ===== src/Invariant/Arriving.antt =====
-- Waiters, redelivered releases and the members of streams (parts of `_process_add_event_tick` of
-- workflows/runtime/control_loop/reduce.py) keep every invariant of the workers.
use llama_agents.Prelude.{
  ℤ, negsuc, inl, inr, String, Bool, true, false, Option, none, some, List, [], ◌∷◌, ◌++◌,
  Bool-cases, Option-cases, lookup, last?, init, is_some, Dict,
}
use llama_agents.Types.{
  BrokerState, InternalStepWorkerState, InternalStepConfig, CollectionBinding,
  CollectionReleaseState, CollectionReleasePayload, StepWorkerWaiter, World, Event, TickAddEvent,
  root, as_event, binding_for_target,
}
use llama_agents.Effects.{
  Keeps, Gives, done, Gives-▷, Gives-if, Gives-done, Keeps-▷, Keeps-Gives, put_worker,
}
use llama_agents.AddEvent.Waiters.{
  resolve_from, resolve_waiters, resumed_attempt, satisfies, add_if,
}
use llama_agents.AddEvent.Members.{
  fail_targeted, buffer_member, store_release_state, fire_if_released, arrive_at, arrive,
  member_in_stream, route_member_to_collect_step,
}
use llama_agents.Streams.{release_state_key, release_state_for}
use llama_agents.AddEvent.Delivery.{attempt_from, redeliver_collection_payload}
use llama_agents.Invariant.Local.{
  LocalInvariant, AllWorkers, AllWorkers-put, in_worker-AllWorkers, Keeps-get_worker,
}
use llama_agents.Invariant.Streaming.{fire-keeps, adjust_open_work_items-AllWorkers}

module _ (w : World) (now : ℤ) (P : InternalStepWorkerState → Type 0)
    (inv : LocalInvariant w now P) where
  module _ (event : Event) where
    resolve_from-keeps :
        (name : String) (sub : Bool) (before after : List StepWorkerWaiter)
        (ws : InternalStepWorkerState) (woken : Bool)
        → P ws
        → Gives (λ r. P r.0) (resolve_from w now event name sub before after (ws, woken))
    unfolding resolve_from
    resolve_from-keeps name sub before [] ws woken p = p
    resolve_from-keeps name sub before (waiter ∷ after) ws woken p =
        elim (Bool-cases (satisfies w now event sub waiter)) [
          | inr other ↦
              rw other (resolve_from-keeps name sub (before ++ (waiter ∷ [])) after ws woken p)
          | inl hit ↦
              let passed = before ++ (record waiter { resolved_event = some event } ∷ []) in
              rw hit (
                Gives-▷ P (λ r. P r.0) _ _
                  (inv.dispatch (resumed_attempt waiter) (root name)
                    (record ws { collected_waiters = passed ++ after })
                    (inv.with_waiters ws (passed ++ after) p))
                  (λ ws' p'. resolve_from-keeps name sub passed after ws' true p'))
        ]

    pub resolve_waiters-AllWorkers :
        (steps : Dict InternalStepConfig) (s : BrokerState) (resolved : List String)
        → AllWorkers P s
        → Keeps (λ r. AllWorkers P r.0) (resolve_waiters w now event steps (s, resolved))
    unfolding resolve_waiters
    resolve_waiters-AllWorkers [] s resolved h = h
    resolve_waiters-AllWorkers ((name, config) ∷ steps) s resolved h =
        Keeps-get_worker P (λ r. AllWorkers P r.0) name s _ h
          (λ ws p.
            Keeps-▷ (λ r. P r.0) (λ r. AllWorkers P r.0) _ _
              (Keeps-Gives (λ r. P r.0) _
                (resolve_from-keeps name config.accept_event_subclasses [] ws.collected_waiters ws
                  false p))
              (λ (ws', woken) p'.
                resolve_waiters-AllWorkers steps (put_worker name ws' s)
                  (add_if woken name resolved) (AllWorkers-put P name ws' s p' h)))

  module _ (tick : TickAddEvent) where
    stored :
        (s : BrokerState) (stream_id : String) (binding : CollectionBinding)
        → AllWorkers P s
        → AllWorkers P (release_state_for s stream_id binding).0
    unfolding release_state_for
    stored s stream_id binding h =
        elim (Option-cases
          (lookup (release_state_key stream_id binding.id) s.collection_release_states)) [
            | inl fresh ↦ rw (fresh, release_state_for) h
            | inr (old, e) ↦ rw (e, release_state_for) h
          ]

    pub redeliver-AllWorkers :
        (payload : CollectionReleasePayload) (s : BrokerState)
        → AllWorkers P s
        → Keeps (AllWorkers P) (redeliver_collection_payload w now tick payload s)
    unfolding redeliver_collection_payload
    redeliver-AllWorkers payload s h =
        elim (Option-cases (lookup payload.binding_id s.config.collection_bindings)) [
          | inl missing ↦ rw (missing, redeliver_collection_payload) tt
          | inr (binding, e) ↦
              rw (e, redeliver_collection_payload)
                (Keeps-get_worker P (AllWorkers P) binding.target_step s _ h (λ ws p.
                  Keeps-Gives (AllWorkers P) _ (
                    in_worker-AllWorkers P binding.target_step s _ h (
                      inv.dispatch
                        (record (attempt_from tick (as_event payload) none) {
                          collection_release_payload = some payload;
                        })
                        (root binding.target_step) ws p))))
        ]

    module _ (name : String) where
      fire_if_released-AllWorkers :
          (stream_id : String) (binding : CollectionBinding) (ws : InternalStepWorkerState)
          (release : Option (List Event)) (s : BrokerState)
          → AllWorkers P s
          → P ws
          → Gives (AllWorkers P) (fire_if_released w now tick name stream_id binding ws release s)
      unfolding fire_if_released
      fire_if_released-AllWorkers stream_id binding ws none s h p = h
      fire_if_released-AllWorkers stream_id binding ws (some events) s h p =
          in_worker-AllWorkers P binding.target_step s _ h
            (fire-keeps w now P inv binding stream_id ws events (init tick.scope_path) p)

      arrive_at-AllWorkers :
          (stream_id : String) (binding : CollectionBinding) (ws : InternalStepWorkerState)
          (release_state : CollectionReleaseState) (s : BrokerState)
          → AllWorkers P s
          → P ws
          → Gives (AllWorkers P) (arrive_at w now tick name stream_id binding ws release_state s)
      unfolding arrive_at store_release_state
      arrive_at-AllWorkers stream_id binding ws release_state s h p =
          Gives-if (AllWorkers P) release_state.released _ _ (λ over. h)
            (λ still.
              fire_if_released-AllWorkers stream_id binding ws
                (buffer_member w now tick name binding release_state).1
                (store_release_state w now tick name stream_id binding
                  (buffer_member w now tick name binding release_state).0 s)
                h p)

      arrive-AllWorkers :
          (stream_id : String) (binding : CollectionBinding) (ws : InternalStepWorkerState)
          (s : BrokerState)
          → AllWorkers P s
          → P ws
          → Gives (AllWorkers P) (arrive w now tick name stream_id binding ws s)
      unfolding arrive
      arrive-AllWorkers stream_id binding ws s h p =
          arrive_at-AllWorkers stream_id binding ws (release_state_for s stream_id binding).1
            (release_state_for s stream_id binding).0 (stored s stream_id binding h) p

      member_in_stream-AllWorkers :
          (stream_id : String) (ws : InternalStepWorkerState) (s : BrokerState)
          → AllWorkers P s
          → P ws
          → Gives (AllWorkers P) (member_in_stream w now tick name stream_id ws s)
      unfolding member_in_stream
      member_in_stream-AllWorkers stream_id ws s h p =
          elim (Option-cases (binding_for_target s.config stream_id name s.streams)) [
            | inl nothing ↦
                rw (nothing, member_in_stream)
                  (Gives-▷ (AllWorkers P) (AllWorkers P) (done s) _ h
                    (adjust_open_work_items-AllWorkers w now P inv (some stream_id) (negsuc 0)))
            | inr (binding, e) ↦
                rw (e, member_in_stream)
                  (Gives-▷ (AllWorkers P) (AllWorkers P) _ _
                    (arrive-AllWorkers stream_id binding ws s h p)
                    (adjust_open_work_items-AllWorkers w now P inv (some stream_id) (negsuc 0)))
          ]

      fail_targeted-AllWorkers :
          (s : BrokerState)
          → AllWorkers P s
          → Gives (λ r. AllWorkers P r.0) (fail_targeted w now tick name s)
      unfolding fail_targeted
      fail_targeted-AllWorkers s h = h

      pub route_member-AllWorkers :
          (ws : InternalStepWorkerState) (s : BrokerState)
          → AllWorkers P s
          → P ws
          → Gives (λ r. AllWorkers P r.0) (route_member_to_collect_step w now tick name ws s)
      unfolding route_member_to_collect_step
      route_member-AllWorkers ws s h p = elim (Option-cases (last? tick.scope_path)) [
        | inl outside ↦ elim (Bool-cases (is_some tick.step_id)) [
          | inl targeted ↦
              rw (outside, route_member_to_collect_step, targeted) (fail_targeted-AllWorkers s h)
          | inr untargeted ↦ rw (outside, route_member_to_collect_step, untargeted) h
        ]
        | inr (stream_id, e) ↦
            rw (e, route_member_to_collect_step)
              (Gives-done (AllWorkers P) (λ r. AllWorkers P r.0) _ (λ s'. (s', false))
                (member_in_stream-AllWorkers stream_id ws s h p) (λ s' h'. h'))
      ]
