-- ===== src/Capacity/Dispatching.antt =====
-- `_add_or_enqueue_event` and `_drain_eligible_queue` of workflows/runtime/control_loop/reduce.py
-- keep the worker slots, and never fail to find a worker.
use llama_agents.Prelude.{
  ℕ, zero, suc, ◌<◌, ◌≡◌, refl, ◌∙◌, inl, inr, true, false, some, length, ltb, ltb→lt, Bool-cases,
  Option-cases, and-eq-true, arith, ℤ,
}
use llama_agents.Types.{EventAttempt, InProgressState, InternalStepWorkerState, StepId, World}
use llama_agents.Effects.{Gives, Gives-▷, Gives-map}
use llama_agents.Dispatch.{
  id_candidates, first, worker_ids, has_space, start_worker, enqueue, add_or_enqueue_event,
  pop_eligible, drain_rounds, drain_eligible_queue,
}
use llama_agents.Capacity.Slots.{IsValid, SlotsFit-append, first_candidate, first-Least, length-map}

module _ (w : World) (now : ℤ) where
  -- With space there is a free worker, and the least one is taken.
  has_space_worker :
      (event : EventAttempt) (ws : InternalStepWorkerState)
      → has_space event ws ≡ true
      → length ws.in_progress < ws.config.num_workers
  unfolding has_space
  has_space_worker event ws h = ltb→lt _ _ (and-eq-true _ _ h).0

  -- The worker that a dispatch finds.
  abbrev pub Found : EventAttempt → StepId → InternalStepWorkerState → ℕ → Type 0
  Found event step_id ws id =
      (first (id_candidates ws.config.num_workers (worker_ids ws)) ≡ some id)
      × (length ws.in_progress < ws.config.num_workers)
      × (add_or_enqueue_event w now event step_id ws ≡ start_worker w now event step_id ws id)

  pub dispatch-Found :
      (event : EventAttempt) (step_id : StepId) (ws : InternalStepWorkerState)
      → has_space event ws ≡ true
      → (id : ℕ) × Found event step_id ws id
  unfolding add_or_enqueue_event id_candidates
  dispatch-Found event step_id ws h =
      let space = has_space_worker event ws h in
      let (id, e) =
        first_candidate 0 ws.config.num_workers (worker_ids ws)
          (omega (arith, length-map (λ (p : InProgressState). p.worker_id) ws.in_progress)) in
      (id, (e, space, rw (h, e)))

  pub dispatch_full :
      (event : EventAttempt) (step_id : StepId) (ws : InternalStepWorkerState)
      → has_space event ws ≡ false
      → add_or_enqueue_event w now event step_id ws ≡ enqueue w now event step_id ws
  unfolding add_or_enqueue_event
  dispatch_full event step_id ws h = rw h

  -- The new slots, and the configuration, which no dispatch changes.
  abbrev Kept : InternalStepWorkerState → InternalStepWorkerState → Type 0
  Kept ws ws' = IsValid ws' × (ws'.config ≡ ws.config)

  Found-Kept :
      (event : EventAttempt) (step_id : StepId) (ws : InternalStepWorkerState) (id : ℕ)
      → IsValid ws
      → Found event step_id ws id
      → Gives (Kept ws) (add_or_enqueue_event w now event step_id ws)
  unfolding start_worker id_candidates
  Found-Kept event step_id ws id v (e, space, eq) =
      let (free, _, high, _) = first-Least 0 ws.config.num_workers (worker_ids ws) id e in
      rw eq (SlotsFit-append _ ws.in_progress _ v space free (omega arith), refl)

  full-Kept :
      (event : EventAttempt) (step_id : StepId) (ws : InternalStepWorkerState)
      → IsValid ws
      → Gives (Kept ws) (enqueue w now event step_id ws)
  unfolding enqueue
  full-Kept event step_id ws v = (v, refl)

  -- A dispatch always returns: the pigeonhole leaves a worker where there is space, so the
  -- `IndexError` of `id_candidates[0]` never occurs. The slots stay valid.
  pub add_or_enqueue_event-IsValid :
      (event : EventAttempt) (step_id : StepId) (ws : InternalStepWorkerState)
      → IsValid ws
      → Gives
          (λ ws'. IsValid ws' × (ws'.config ≡ ws.config))
          (add_or_enqueue_event w now event step_id ws)
  add_or_enqueue_event-IsValid event step_id ws v = elim (Bool-cases (has_space event ws)) [
    | inl space ↦
        let (id, found) = dispatch-Found event step_id ws space in
        Found-Kept event step_id ws id v found
    | inr full ↦ rw (dispatch_full event step_id ws full) (full-Kept event step_id ws v)
  ]

  -- The same for the whole loop: it always returns.
  pub drain_rounds-IsValid :
      (step_id : StepId) (rounds : ℕ) (ws : InternalStepWorkerState)
      → IsValid ws
      → Gives (λ ws'. IsValid ws' × (ws'.config ≡ ws.config)) (drain_rounds w now step_id rounds ws)
  unfolding drain_rounds
  drain_rounds-IsValid step_id zero ws v = (v, refl)
  drain_rounds-IsValid step_id (suc rounds) ws v =
      elim (Bool-cases (ltb (length ws.in_progress) ws.config.num_workers)) [
        | inr full ↦ rw full (v, refl)
        | inl space ↦ elim (Option-cases (pop_eligible ws.queue)) [
          | inl nothing ↦ rw (space, nothing) (v, refl)
          | inr (popped, e) ↦
              let (attempt, queue) = popped in
              rw (space, e)
                (Gives-▷ (Kept ws) (Kept ws) _ _
                  (add_or_enqueue_event-IsValid attempt step_id (record ws { queue = queue }) v)
                  (λ ws' (v', same).
                    Gives-map _ (Kept ws) _ (λ ws'' (v'', same'). (v'', same' ∙ same))
                      (drain_rounds-IsValid step_id rounds ws' v')))
        ]
      ]

  pub drain_eligible_queue-IsValid :
      (step_id : StepId) (ws : InternalStepWorkerState)
      → IsValid ws
      → Gives
          (λ ws'. IsValid ws' × (ws'.config ≡ ws.config))
          (drain_eligible_queue w now step_id ws)
  unfolding drain_eligible_queue
  drain_eligible_queue-IsValid step_id ws v = drain_rounds-IsValid step_id (length ws.queue) ws v
