-- ===== src/Draining.antt =====
-- What `_drain_eligible_queue` of workflows/runtime/control_loop/reduce.py does to a queue.
use llama_agents.Prelude.{
  Returns-both, subst, some-injective, ℕ, zero, suc, ◌≤◌, ◌≡◌, refl, ◌∙◌, sym, ◌⊎◌, inl, inr, true,
  Option, none, some, List, [], ◌∷◌, ◌++◌, length, ltb, Bool-cases, Option-cases, arith, ℤ, String,
  if◌then◌else◌, map, ltb→le, append_assoc, append-nil, ap,
}
use llama_agents.Types.{
  Event, EventAttempt, InProgressState, InternalStepWorkerState, StepId, World,
}
use llama_agents.Effects.{Gives, Gives-▷, Gives-map}
use llama_agents.Dispatch.{
  is_eligible, has_space, start_worker, execution, add_or_enqueue_event, pop_eligible, drain_rounds,
  drain_eligible_queue, keep_front,
}
use llama_agents.Capacity.Slots.{IsValid}
use llama_agents.Capacity.Dispatching.{dispatch-Found, add_or_enqueue_event-IsValid}

-- The attempts that wait for a time, in their order.
abbrev pub delayed : List EventAttempt → List EventAttempt
delayed [] = []
delayed (a ∷ queue) = if is_eligible a then delayed queue else a ∷ delayed queue

-- The attempts that could start, in their order.
abbrev pub eligible : List EventAttempt → List EventAttempt
eligible [] = []
eligible (a ∷ queue) = if is_eligible a then a ∷ eligible queue else eligible queue

-- What a pop returns: the first eligible attempt, and a queue that lacks only it.
abbrev pub Popped : List EventAttempt → EventAttempt × List EventAttempt → Type 0
Popped queue (a, rest) =
    (is_eligible a ≡ true)
    × (eligible queue ≡ a ∷ eligible rest)
    × (delayed rest ≡ delayed queue)
    × (length queue ≡ suc (length rest))

pop_eligible-Popped :
    (queue : List EventAttempt) (r : EventAttempt × List EventAttempt)
    → pop_eligible queue ≡ some r
    → Popped queue r
unfolding pop_eligible keep_front
pop_eligible-Popped [] r e = cc
pop_eligible-Popped (a ∷ queue) r e = elim (Bool-cases (is_eligible a)) [
  | inl now ↦
      subst (Popped (a ∷ queue)) (some-injective (a, queue) r (rw now at e))
        (rw now (refl, refl, refl, refl))
  | inr later ↦ elim (Option-cases (pop_eligible queue)) [
    | inl nothing ↦ cc
    | inr ((b, rest), found) ↦
        let (h, first, kept, shorter) = pop_eligible-Popped queue (b, rest) found in
        subst (Popped (a ∷ queue)) (some-injective (b, a ∷ rest) r (rw (later, found) at e))
          (rw (later, h, first, kept, shorter) (refl, refl, refl, refl))
  ]
]

pop_eligible-none : (queue : List EventAttempt) → pop_eligible queue ≡ none → eligible queue ≡ []
unfolding pop_eligible keep_front
pop_eligible-none [] e = refl
pop_eligible-none (a ∷ queue) e = elim (Bool-cases (is_eligible a)) [
  | inl now ↦ cc
  | inr later ↦ elim (Option-cases (pop_eligible queue)) [
    | inl nothing ↦ rw later (pop_eligible-none queue nothing)
    | inr (r, found) ↦ cc
  ]
]

-- What an execution takes over from its attempt, of the parts that identify its work.
abbrev pub Work : Type 0
Work = Event × List String × Option String

abbrev pub work_of : EventAttempt → Work
work_of a = (a.event, a.scope_path, a.work_item_id)

abbrev pub works : List InProgressState → List Work
works = map (λ p. (p.event, p.scope_path, p.work_item_id))

-- `started` left the queue for the workers, in order, and nothing else happened.
pub record Started (ws ws' : InternalStepWorkerState) (started : List EventAttempt) : Type 0 where
  pub same_config : ws'.config ≡ ws.config
  pub from_front : eligible ws.queue ≡ started ++ eligible ws'.queue
  pub delayed_kept : delayed ws'.queue ≡ delayed ws.queue
  pub running : works ws'.in_progress ≡ works ws.in_progress ++ map work_of started

-- The loop has nothing left to do.
abbrev pub IsDrained : InternalStepWorkerState → Type 0
IsDrained ws = (ws.config.num_workers ≤ length ws.in_progress) ⊎ (eligible ws.queue ≡ [])

works-append :
    (ps : List InProgressState) (p : InProgressState)
    → works (ps ++ (p ∷ [])) ≡ works ps ++ ((p.event, p.scope_path, p.work_item_id) ∷ [])
works-append [] p = refl
works-append (q ∷ ps) p = ap (◌∷◌ (q.event, q.scope_path, q.work_item_id)) (works-append ps p)

abbrev Drains : InternalStepWorkerState → InternalStepWorkerState → Type 0
Drains ws ws' = IsDrained ws' × ((started : List EventAttempt) × Started ws ws' started)

nothing-Started : (ws : InternalStepWorkerState) → Started ws ws []
nothing-Started ws = record {
  same_config = refl;
  from_front = refl;
  delayed_kept = refl;
  running = sym (append-nil (works ws.in_progress));
}

module _ (w : World) (now : ℤ) (step_id : StepId) where
  -- One round: the popped attempt starts on the worker that is found.
  one-Started :
      (ws : InternalStepWorkerState) (a : EventAttempt) (queue : List EventAttempt) (id : ℕ)
      → Popped ws.queue (a, queue)
      → Gives
          (λ ws'. Started ws ws' (a ∷ []) × (length ws'.queue ≤ length queue))
          (start_worker w now a step_id (record ws { queue = queue }) id)
  unfolding start_worker execution
  one-Started ws a queue id (now_ok, first, kept, shorter) = (
    record {
      same_config = refl;
      from_front = first;
      delayed_kept = kept;
      running = works-append ws.in_progress _;
    },
    omega arith,
  )

  then-Started :
      (ws ws' ws'' : InternalStepWorkerState) (a : EventAttempt) (started : List EventAttempt)
      → Started ws ws' (a ∷ [])
      → Started ws' ws'' started
      → Started ws ws'' (a ∷ started)
  then-Started ws ws' ws'' a started one rest = record {
    same_config = rest.same_config ∙ one.same_config;
    from_front = one.from_front ∙ ap (◌∷◌ a) rest.from_front;
    delayed_kept = rest.delayed_kept ∙ one.delayed_kept;
    running =
        rest.running
        ∙ ap (λ l. l ++ map work_of started) one.running
        ∙ append_assoc (works ws.in_progress) (work_of a ∷ []) (map work_of started);
  }

  abbrev OneStarted : (ws ws' : InternalStepWorkerState) → EventAttempt → List EventAttempt → Type 0
  OneStarted ws ws' a queue =
      Started ws ws' (a ∷ []) × (length ws'.queue ≤ length queue) × IsValid ws'

  round :
      (ws : InternalStepWorkerState) (a : EventAttempt) (queue : List EventAttempt)
      → ltb (length ws.in_progress) ws.config.num_workers ≡ true
      → Popped ws.queue (a, queue)
      → IsValid ws
      → Gives
          (λ ws'. OneStarted ws ws' a queue)
          (add_or_enqueue_event w now a step_id (record ws { queue = queue }))
  unfolding has_space
  round ws a queue space popped v =
      let ws0 : InternalStepWorkerState = record ws { queue = queue } in
      let (id, found) = dispatch-Found w now a step_id ws0 (rw (space, popped.0) refl) in
      Gives-map
        (λ ws'.
          (Started ws ws' (a ∷ []) × (length ws'.queue ≤ length queue))
          × (IsValid ws' × (ws'.config ≡ ws.config)))
        (λ ws'. OneStarted ws ws' a queue) _
        (λ ws' ((one, shorter), valid). (one, shorter, valid.0))
        (Returns-both _ _ _ (rw found.2 (one-Started ws a queue id popped))
          (add_or_enqueue_event-IsValid w now a step_id ws0 v))

  drain_rounds-Drains :
      (rounds : ℕ) (ws : InternalStepWorkerState)
      → length ws.queue ≤ rounds
      → IsValid ws
      → Gives (Drains ws) (drain_rounds w now step_id rounds ws)
  unfolding drain_rounds
  drain_rounds-Drains zero ws short v =
      (inr (empty_queue ws.queue (omega arith)), ([], nothing-Started ws))
    where
      empty_queue : (queue : List EventAttempt) → length queue ≤ 0 → eligible queue ≡ []
      empty_queue [] h = refl
      empty_queue (a ∷ queue) h = absurd (omega arith)
  drain_rounds-Drains (suc rounds) ws short v =
      elim (Bool-cases (ltb (length ws.in_progress) ws.config.num_workers)) [
        | inr full ↦ rw full (inl (ltb→le _ _ full), ([], nothing-Started ws))
        | inl space ↦ elim (Option-cases (pop_eligible ws.queue)) [
          | inl nothing ↦
              rw (space, nothing)
                (inr (pop_eligible-none ws.queue nothing), ([], nothing-Started ws))
          | inr ((a, queue), e) ↦
              rw (space, e)
                (let popped = pop_eligible-Popped ws.queue (a, queue) e in
                  Gives-▷ (λ ws'. OneStarted ws ws' a queue) (Drains ws) _ _
                    (round ws a queue space popped v)
                    (λ ws' (one, shorter, v').
                      Gives-map _ (Drains ws) _
                        (λ ws'' (over, (started, rest)).
                          (over, (a ∷ started, then-Started ws ws' ws'' a started one rest)))
                        (drain_rounds-Drains rounds ws' (omega (arith, popped.3)) v')))
        ]
      ]

  -- From valid worker slots a drain always returns. It moves attempts from the queue to workers,
  -- always the first one that waits for no time, so those that start are the first such attempts,
  -- in their order, and each once; it adds their executions behind the ones that run; it keeps the
  -- attempts that wait for a time, in their order; and it stops only where every worker is taken or
  -- no such attempt is left.
  pub drain_eligible_queue-Started :
      (ws : InternalStepWorkerState)
      → IsValid ws
      → Gives
          (λ ws'. IsDrained ws' × ((started : List EventAttempt) × Started ws ws' started))
          (drain_eligible_queue w now step_id ws)
  unfolding drain_eligible_queue
  drain_eligible_queue-Started ws v = drain_rounds-Drains (length ws.queue) ws (omega arith) v
