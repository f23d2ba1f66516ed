-- ===== src/Resolving.antt =====
-- Which waiters an event resolves (`_resolve_waiters` of workflows/runtime/control_loop/reduce.py).
use llama_agents.Prelude.{
  ℤ, ◌≡◌, refl, sym, ◌∙◌, inl, inr, String, Bool, true, false, ◌||◌, some, List, [], ◌∷◌, ◌++◌, map,
  any, append_assoc, Bool-cases, if◌then◌else◌, Returns-both,
}
use llama_agents.Types.{
  Event, EventAttempt, InternalStepWorkerState, StepId, StepWorkerWaiter, World, root,
}
use llama_agents.Effects.{Gives, Gives-▷, Gives-map}
use llama_agents.Dispatch.{add_or_enqueue_event, has_space, start_worker, enqueue}
use llama_agents.AddEvent.Waiters.{satisfies, resolve_from, resumed_attempt}
use llama_agents.Capacity.Slots.{IsValid}
use llama_agents.Capacity.Dispatching.{add_or_enqueue_event-IsValid, dispatch-Found, dispatch_full}

module _ (w : World) (now : ℤ) where
  -- A dispatch leaves the waiters alone.
  dispatch-waiters :
      (event : EventAttempt) (step_id : StepId) (ws : InternalStepWorkerState)
      → Gives
          (λ ws'. ws'.collected_waiters ≡ ws.collected_waiters)
          (add_or_enqueue_event w now event step_id ws)
  unfolding start_worker enqueue
  dispatch-waiters event step_id ws = elim (Bool-cases (has_space event ws)) [
    | inl space ↦ let (id, found) = dispatch-Found w now event step_id ws space in rw found.2 refl
    | inr full ↦ rw (dispatch_full w now event step_id ws full) refl
  ]

  module _ (event : Event) (step_name : String) (allow_subclasses : Bool) where
    abbrev pub matches : StepWorkerWaiter → Bool
    matches = satisfies w now event allow_subclasses

    -- The waiter after the event.
    abbrev pub resolved : StepWorkerWaiter → StepWorkerWaiter
    resolved waiter =
        if matches waiter then record waiter { resolved_event = some event } else waiter

    -- What the loop leaves behind, for the waiters that it has still to pass.
    abbrev Resolved :
        (before after : List StepWorkerWaiter) → Bool → InternalStepWorkerState × Bool → Type 0
    Resolved before after woken (ws, woken') =
        (ws.collected_waiters ≡ before ++ map resolved after)
        × (woken' ≡ (woken || any matches after))
        × IsValid ws

    or_true : (b : Bool) → (b || true) ≡ true
    or_true true = refl
    or_true false = refl

    resolve_from-Resolved :
        (before after : List StepWorkerWaiter) (ws : InternalStepWorkerState) (woken : Bool)
        → ws.collected_waiters ≡ before ++ after
        → IsValid ws
        → Gives
            (Resolved before after woken)
            (resolve_from w now event step_name allow_subclasses before after (ws, woken))
    unfolding resolve_from
    resolve_from-Resolved before [] ws woken e v = (e, or_false woken, v)
      where
        or_false : (b : Bool) → b ≡ (b || false)
        or_false true = refl
        or_false false = refl
    resolve_from-Resolved before (waiter ∷ after) ws woken e v =
        let hit : StepWorkerWaiter = record waiter { resolved_event = some event } in
        elim (Bool-cases (matches waiter)) [
          | inr other ↦
              rw (other, ← append_assoc before (waiter ∷ []) (map resolved after))
                (resolve_from-Resolved (before ++ (waiter ∷ [])) after ws woken
                  (e ∙ sym (append_assoc before (waiter ∷ []) after)) v)
          | inl yes_it_does ↦
              let passed = before ++ (hit ∷ []) in
              rw (yes_it_does, or_true woken, ← append_assoc before (hit ∷ []) (map resolved after))
                (Gives-▷ (λ ws'. (ws'.collected_waiters ≡ passed ++ after) × IsValid ws')
                  (Resolved passed after true) _ _
                  (Gives-map
                    (λ ws'.
                      (ws'.collected_waiters ≡ passed ++ after)
                      × (IsValid ws' × (ws'.config ≡ ws.config)))
                    (λ ws'. (ws'.collected_waiters ≡ passed ++ after) × IsValid ws') _
                    (λ ws' (same, (v', config)). (same, v'))
                    (Returns-both _ _ _
                      (dispatch-waiters (resumed_attempt waiter) (root step_name)
                        (record ws { collected_waiters = passed ++ after }))
                      (add_or_enqueue_event-IsValid w now (resumed_attempt waiter) (root step_name)
                        (record ws { collected_waiters = passed ++ after }) v)))
                  (λ ws' (same, v'). resolve_from-Resolved passed after ws' true same v'))
        ]

    -- From valid worker slots the loop over a step's waiters always returns. Every waiter that the
    -- event satisfies carries the event as its resolution, also where it carried another one before;
    -- all other waiters are unchanged; the order is kept; and the step counts as woken exactly if
    -- one of its waiters is satisfied.
    pub resolve_from-resolved :
        (ws : InternalStepWorkerState)
        → IsValid ws
        → Gives
            (λ r.
              (r.0.collected_waiters ≡ map resolved ws.collected_waiters)
              × (r.1 ≡ any matches ws.collected_waiters))
            (resolve_from w now event step_name allow_subclasses [] ws.collected_waiters
              (ws, false))
    resolve_from-resolved ws v =
        Gives-map (Resolved [] ws.collected_waiters false)
          (λ r.
            (r.0.collected_waiters ≡ map resolved ws.collected_waiters)
            × (r.1 ≡ any matches ws.collected_waiters))
          _ (λ r (waiters, woken, v'). (waiters, woken))
          (resolve_from-Resolved [] ws.collected_waiters ws false refl v)
