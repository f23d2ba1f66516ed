-- ===== src/Framed/Arrivals.antt =====
-- Waiters, redelivered releases and the members of streams (parts of `_process_add_event_tick` of
-- workflows/runtime/control_loop/reduce.py) keep a predicate of the state.
use llama_agents.Prelude.{
  ℤ, negsuc, inl, inr, String, Bool, false, Option, none, some, List, [], ◌∷◌, Option-cases, lookup,
  last?, is_some, Dict,
}
use llama_agents.Types.{
  BrokerState, InternalStepWorkerState, InternalStepConfig, CollectionBinding,
  CollectionReleaseState, CollectionReleasePayload, World, Event, TickAddEvent, binding_for_target,
}
use llama_agents.Effects.{Keeps, done, Keeps-done, Keeps-▷, Keeps-if, put_worker}
use llama_agents.AddEvent.Waiters.{resolve_from, resolve_waiters, add_if}
use llama_agents.AddEvent.Members.{
  fail_targeted, buffer_member, store_release_state, fire_if_released, arrive_at, arrive,
  member_in_stream, route_member_to_collect_step,
}
use llama_agents.Streams.{release_state_key, release_state_for}
use llama_agents.AddEvent.Delivery.{redeliver_collection_payload}
use llama_agents.Framed.Interface.{StateInvariant, Keeps-any, put-Q, in_worker-Q, get_worker-Keeps}
use llama_agents.Effects.{Keeps-▷, Keeps-if, Keeps-done, Keeps}

module _ (w : World) (now : ℤ) (Q : BrokerState → Type 0) (inv : StateInvariant w now Q) where
  module _ (event : Event) where
    pub resolve_waiters-Q :
        (steps : Dict InternalStepConfig) (s : BrokerState) (resolved : List String)
        → Q s
        → Keeps (λ r. Q r.0) (resolve_waiters w now event steps (s, resolved))
    unfolding resolve_waiters
    resolve_waiters-Q [] s resolved q = q
    resolve_waiters-Q ((name, config) ∷ steps) s resolved q =
        get_worker-Keeps (λ (r : BrokerState × List String). Q r.0) name s _
          (λ ws.
            Keeps-▷ (λ r. Unit) (λ (r : BrokerState × List String). Q r.0) _ _
              (Keeps-any (
                resolve_from w now event name config.accept_event_subclasses [] ws.collected_waiters
                  (ws, false)))
              (λ (ws', woken) u.
                resolve_waiters-Q steps (put_worker name ws' s) (add_if woken name resolved)
                  (put-Q w now Q inv name ws' s q)))

  module _ (tick : TickAddEvent) where
    stored-Q :
        (s : BrokerState) (stream_id : String) (binding : CollectionBinding)
        → Q s
        → Q (release_state_for s stream_id binding).0
    unfolding release_state_for
    stored-Q s stream_id binding q =
        elim (Option-cases
          (lookup (release_state_key stream_id binding.id) s.collection_release_states)) [
            | inl fresh ↦ rw (fresh, release_state_for) (inv.with_releases s _ q)
            | inr (old, e) ↦ rw (e, release_state_for) q
          ]

    pub redeliver-Q :
        (payload : CollectionReleasePayload) (s : BrokerState)
        → Q s
        → Keeps Q (redeliver_collection_payload w now tick payload s)
    unfolding redeliver_collection_payload
    redeliver-Q payload s q =
        elim (Option-cases (lookup payload.binding_id s.config.collection_bindings)) [
          | inl missing ↦ rw (missing, redeliver_collection_payload) tt
          | inr (binding, e) ↦
              rw (e, redeliver_collection_payload)
                (get_worker-Keeps Q binding.target_step s _
                  (λ ws. in_worker-Q w now Q inv binding.target_step s _ q))
        ]

    module _ (name : String) where
      fire_if_released-Q :
          (stream_id : String) (binding : CollectionBinding) (ws : InternalStepWorkerState)
          (release : Option (List Event)) (s : BrokerState)
          → Q s
          → Keeps Q (fire_if_released w now tick name stream_id binding ws release s)
      unfolding fire_if_released
      fire_if_released-Q stream_id binding ws none s q = q
      fire_if_released-Q stream_id binding ws (some events) s q =
          in_worker-Q w now Q inv binding.target_step s _ q

      arrive_at-Q :
          (stream_id : String) (binding : CollectionBinding) (ws : InternalStepWorkerState)
          (release_state : CollectionReleaseState) (s : BrokerState)
          → Q s
          → Keeps Q (arrive_at w now tick name stream_id binding ws release_state s)
      unfolding arrive_at store_release_state
      arrive_at-Q stream_id binding ws release_state s q =
          Keeps-if Q release_state.released _ _ (λ over. q)
            (λ still.
              fire_if_released-Q stream_id binding ws
                (buffer_member w now tick name binding release_state).1
                (store_release_state w now tick name stream_id binding
                  (buffer_member w now tick name binding release_state).0 s)
                (inv.with_releases s _ q))

      arrive-Q :
          (stream_id : String) (binding : CollectionBinding) (ws : InternalStepWorkerState)
          (s : BrokerState)
          → Q s
          → Keeps Q (arrive w now tick name stream_id binding ws s)
      unfolding arrive
      arrive-Q stream_id binding ws s q =
          arrive_at-Q stream_id binding ws (release_state_for s stream_id binding).1
            (release_state_for s stream_id binding).0 (stored-Q s stream_id binding q)

      member_in_stream-Q :
          (stream_id : String) (ws : InternalStepWorkerState) (s : BrokerState)
          → Q s
          → Keeps Q (member_in_stream w now tick name stream_id ws s)
      unfolding member_in_stream
      member_in_stream-Q stream_id ws s q =
          let consume = inv.adjusted (some stream_id) (negsuc 0) in
          elim (Option-cases (binding_for_target s.config stream_id name s.streams)) [
            | inl nothing ↦ rw (nothing, member_in_stream) (Keeps-▷ Q Q (done s) _ q consume)
            | inr (binding, e) ↦
                rw (e, member_in_stream)
                  (Keeps-▷ Q Q _ _ (arrive-Q stream_id binding ws s q) consume)
          ]

      fail_targeted-Q :
          (s : BrokerState) → Q s → Keeps (λ r. Q r.0) (fail_targeted w now tick name s)
      unfolding fail_targeted
      fail_targeted-Q s q = inv.with_running s false q

      pub route_member-Q :
          (ws : InternalStepWorkerState) (s : BrokerState)
          → Q s
          → Keeps (λ r. Q r.0) (route_member_to_collect_step w now tick name ws s)
      unfolding route_member_to_collect_step
      route_member-Q ws s q = elim (Option-cases (last? tick.scope_path)) [
        | inl outside ↦
            rw (outside, route_member_to_collect_step)
              (Keeps-if (λ (r : BrokerState × Bool). Q r.0) (is_some tick.step_id)
                (fail_targeted w now tick name s) (done (s, false))
                (λ targeted. fail_targeted-Q s q) (λ untargeted. q))
        | inr (stream_id, e) ↦
            rw (e, route_member_to_collect_step)
              (Keeps-done Q (λ (r : BrokerState × Bool). Q r.0) _ (λ s'. (s', false))
                (member_in_stream-Q stream_id ws s q) (λ s' q'. q'))
      ]
