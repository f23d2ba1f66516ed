-- ===== src/Waking.antt =====
-- A wakeup (`_process_wakeup_tick` of workflows/runtime/control_loop/reduce.py) over all steps.
use llama_agents.Prelude.{
  ℤ, ltb_ℤ, leb_ℤ, ◌≡◌, refl, sym, ap, ◌∙◌, ◌⊎◌, inl, inr, String, Bool, true, false, not, Option,
  none, some, List, [], ◌∷◌, ◌++◌, map, select, All-lookup, Bool-cases, Option-cases, arith, Dict,
  lookup, str_eq, Unique,
}
use llama_agents.Types.{
  BrokerState, EventAttempt, InProgressState, InternalStepWorkerState, World, deepcopy,
  copy_workers, copy_worker, copy_in_progress, root,
}
use llama_agents.Effects.{Gives, Gives-map}
use llama_agents.Dispatch.{is_eligible, drain_eligible_queue}
use llama_agents.Timers.{is_due, make_eligible, wake_queue, wake_workers, process_wakeup_tick}
use llama_agents.Visiting.Once.{EachStep, loop-EachStep}
use llama_agents.Invariant.Local.{deepcopy-AllWorkers}
use llama_agents.Capacity.Slots.{IsValid, AllValid}
use llama_agents.Capacity.Finishing.{copy_worker-IsValid}
use llama_agents.Draining.{
  IsDrained, Started, work_of, works, delayed, eligible, drain_eligible_queue-Started,
}

-- The attempt waits for a time after `due`.
abbrev pub is_later : ℤ → EventAttempt → Bool
is_later due a = elim a.not_before [ none ↦ false | some time ↦ ltb_ℤ due time ]

-- The attempt that waits for no time.
abbrev pub awake : EventAttempt → EventAttempt
awake a = record a { not_before = none }

-- What a wakeup makes of a step: `started` are the attempts that start.
pub record WokenWith (due : ℤ) (ws ws' : InternalStepWorkerState) (started : List EventAttempt)
    : Type 0 where
  same_config : ws'.config ≡ ws.config
  later_kept : delayed ws'.queue ≡ select (is_later due) ws.queue
  from_front :
      map awake (select (λ a. not (is_later due a)) ws.queue) ≡ started ++ eligible ws'.queue
  running : works ws'.in_progress ≡ works ws.in_progress ++ map work_of started
  drained : IsDrained ws'

abbrev pub IsWoken : ℤ → InternalStepWorkerState → InternalStepWorkerState → Type 0
IsWoken due ws ws' = (started : List EventAttempt) × WokenWith due ws ws' started

-- Each step of the state was woken.
abbrev pub AllWoken : ℤ → BrokerState → BrokerState → Type 0
AllWoken due s s' = EachStep (IsWoken due) s.workers s'

works-copy : (ps : List InProgressState) → works (map copy_in_progress ps) ≡ works ps
unfolding copy_in_progress
works-copy [] = refl
works-copy (p ∷ ps) = ap (◌∷◌ (p.event, p.scope_path, p.work_item_id)) (works-copy ps)

lookup-copy :
    (name : String) (d : Dict InternalStepWorkerState) (ws : InternalStepWorkerState)
    → lookup name d ≡ some ws
    → lookup name (copy_workers d) ≡ some (copy_worker ws)
unfolding lookup copy_workers
lookup-copy name [] ws e = cc
lookup-copy name ((j, x) ∷ d) ws e = elim (Bool-cases (str_eq j name)) [
  | inl same ↦ rw same (ap copied (rw same at e))
  | inr other ↦ rw other (lookup-copy name d ws (rw other at e))
]
  where
    copied : Option InternalStepWorkerState → Option InternalStepWorkerState
    copied none = none
    copied (some ws) = some (copy_worker ws)

lookup-copy_none :
    (name : String) (d : Dict InternalStepWorkerState)
    → lookup name d ≡ none
    → lookup name (copy_workers d) ≡ none
unfolding lookup copy_workers
lookup-copy_none name [] e = refl
lookup-copy_none name ((j, x) ∷ d) e = elim (Bool-cases (str_eq j name)) [
  | inl same ↦ cc
  | inr other ↦ rw other (lookup-copy_none name d (rw other at e))
]

Unique-copy : (d : Dict InternalStepWorkerState) → Unique d → Unique (copy_workers d)
unfolding copy_workers
Unique-copy [] u = tt
Unique-copy ((j, x) ∷ d) u = (lookup-copy_none j d u.0, Unique-copy d u.1)

module _ (due : ℤ) where
  -- One attempt: it is kept if it waits for a later time, and waits for none otherwise.
  made_eligible :
      (a : EventAttempt)
      → ((is_later due a ≡ true) × (make_eligible due a ≡ a) × (is_eligible a ≡ false))
        ⊎ ((is_later due a ≡ false) × (make_eligible due a ≡ awake a))
  unfolding make_eligible is_due is_eligible
  made_eligible a = elim (Option-cases a.not_before) [
    | inl now ↦ inr (rw now refl, rw (now, make_eligible) refl)
    | inr (time, waits) ↦ elim (Bool-cases (leb_ℤ time due)) [
      | inl over ↦ inr (rw waits (past time over), rw (waits, make_eligible, over) refl)
      | inr still ↦
          inl (rw waits (ahead time still), rw (waits, make_eligible, still) refl, rw waits refl)
    ]
  ]
    where
      past : (time : ℤ) → leb_ℤ time due ≡ true → ltb_ℤ due time ≡ false
      past time h = ground (arith, h)

      ahead : (time : ℤ) → leb_ℤ time due ≡ false → ltb_ℤ due time ≡ true
      ahead time h = ground (arith, h)

  woken-delayed :
      (queue : List EventAttempt)
      → delayed (map (make_eligible due) queue) ≡ select (is_later due) queue
  unfolding is_eligible
  woken-delayed [] = refl
  woken-delayed (a ∷ queue) = elim (made_eligible a) [
    | inl (later, same, waits) ↦ rw (same, waits, later) (ap (◌∷◌ a) (woken-delayed queue))
    | inr (over, cleared) ↦ rw (cleared, over) (woken-delayed queue)
  ]

  woken-eligible :
      (queue : List EventAttempt)
      → eligible (map (make_eligible due) queue)
        ≡ map awake (select (λ a. not (is_later due a)) queue)
  unfolding is_eligible
  woken-eligible [] = refl
  woken-eligible (a ∷ queue) = elim (made_eligible a) [
    | inl (later, same, waits) ↦ rw (same, waits, later) (woken-eligible queue)
    | inr (over, cleared) ↦ rw (cleared, over) (ap (◌∷◌ (awake a)) (woken-eligible queue))
  ]

  module _ (w : World) (now : ℤ) where
    copied-IsWoken :
        (ws ws' : InternalStepWorkerState) (started : List EventAttempt)
        → IsDrained ws'
        → Started (wake_queue due (copy_worker ws)) ws' started
        → IsWoken due ws ws'
    unfolding wake_queue copy_worker
    copied-IsWoken ws ws' started over s = (
      started,
      record {
        same_config = s.same_config;
        later_kept = s.delayed_kept ∙ woken-delayed ws.queue;
        from_front = sym (woken-eligible ws.queue) ∙ s.from_front;
        running = s.running ∙ ap (λ l. l ++ map work_of started) (works-copy ws.in_progress);
        drained = over;
      },
    )

    -- What is drained of a step, behind the waking of its queue.
    abbrev Drained : InternalStepWorkerState → InternalStepWorkerState → Type 0
    Drained ws ws' =
        IsDrained ws' × ((started : List EventAttempt) × Started (wake_queue due ws) ws' started)

    -- From valid worker slots, with each step's name once among the workers, a wakeup always
    -- returns. Each step afterwards: the attempts that wait for a time after `due` wait as before, in
    -- their order; the others wait for no time any more, and the first of them, in their order and
    -- each once, have started behind the executions that ran, while the rest is queued; and a rest is
    -- left only where every worker is taken.
    pub process_wakeup_tick-AllWoken :
        (s : BrokerState)
        → Unique s.workers
        → AllValid s
        → Gives (AllWoken due s) (process_wakeup_tick w now due s)
    unfolding process_wakeup_tick wake_workers deepcopy wake_queue
    process_wakeup_tick-AllWoken s u h =
        let valid = deepcopy-AllWorkers IsValid copy_worker-IsValid s h in
        Gives-map (EachStep Drained (deepcopy s).workers) (AllWoken due s) _
          (λ s' each name ws e.
            let (ws', found, (over, (started, r))) =
              each name (copy_worker ws) (lookup-copy name s.workers ws e) in
            (ws', found, copied-IsWoken ws ws' started over r))
          (loop-EachStep Drained
            (λ name ws. drain_eligible_queue w now (root name) (wake_queue due ws))
            (wake_workers w now due) (λ s. refl) (λ name names s. refl) (deepcopy s)
            (Unique-copy s.workers u)
            (λ name ws e.
              drain_eligible_queue-Started w now (root name) (wake_queue due ws)
                (All-lookup IsValid name (deepcopy s).workers ws valid e)))
