-- ===== src/Resuming.antt =====
-- Resuming a run: the body of the loop of `rewind_in_progress`
-- (workflows/runtime/control_loop/reduce.py) loses no work.
use llama_agents.Prelude.{ℤ, ◌≡◌, refl, sym, ap, ◌∙◌, List, [], ◌∷◌, ◌++◌, map, map-append}
use llama_agents.Types.{EventAttempt, InProgressState, InternalStepWorkerState, StepId, World}
use llama_agents.Prelude.{String, Returns-both}
use llama_agents.Effects.{Gives-map}
use llama_agents.Types.{root, BrokerState, deepcopy}
use llama_agents.Reduce.{rewind_workers, rewind_in_progress}
use llama_agents.Visiting.{EveryWorker, Visits, loop-EveryWorker}
use llama_agents.Capacity.Completing.{drain-IsValid}
use llama_agents.Effects.{Gives, Gives-▷, ◌▷◌}
use llama_agents.Dispatch.{is_eligible, drain_eligible_queue}
use llama_agents.Reduce.{rewound_attempt, requeue, rewind_worker, rearm_worker}
use llama_agents.Capacity.Slots.{IsValid, SlotsFit-nil}
use llama_agents.Draining.{
  IsDrained, Started, Work, work_of, works, eligible, delayed, drain_eligible_queue-Started,
}

-- The reverse of the first list, then the second.
abbrev pub onto : List Work → List Work → List Work
onto [] ys = ys
onto (x ∷ xs) ys = onto xs (x ∷ ys)

requeue-eligible :
    (ps : List InProgressState) (queue : List EventAttempt)
    → map work_of (eligible (requeue ps queue)) ≡ onto (works ps) (map work_of (eligible queue))
unfolding requeue rewound_attempt is_eligible
requeue-eligible [] queue = refl
requeue-eligible (p ∷ ps) queue = requeue-eligible ps (rewound_attempt p ∷ queue)

requeue-delayed :
    (ps : List InProgressState) (queue : List EventAttempt)
    → delayed (requeue ps queue) ≡ delayed queue
unfolding requeue rewound_attempt is_eligible
requeue-delayed [] queue = refl
requeue-delayed (p ∷ ps) queue = requeue-delayed ps (rewound_attempt p ∷ queue)

-- `ws'` has the work of `ws`: its executions and then what could start are the interrupted executions,
-- the latest first, and then what could start before; what waits for a time is the same.
pub record HasWorkOf (ws ws' : InternalStepWorkerState) : Type 0 where
  same_work :
      works ws'.in_progress ++ map work_of (eligible ws'.queue)
      ≡ onto (works ws.in_progress) (map work_of (eligible ws.queue))
  same_delayed : delayed ws'.queue ≡ delayed ws.queue
  drained : IsDrained ws'

module _ (w : World) (now : ℤ) (step_id : StepId) where
  rewound-HasWorkOf :
      (ws ws' : InternalStepWorkerState) (started : List EventAttempt)
      → IsDrained ws'
      → Started (rewind_worker ws) ws' started
      → HasWorkOf ws ws'
  unfolding rewind_worker
  rewound-HasWorkOf ws ws' started over s = record {
    same_work =
        ap (λ l. l ++ map work_of (eligible ws'.queue)) s.running
        ∙ sym (map-append work_of started (eligible ws'.queue))
        ∙ ap (map work_of) (sym s.from_front)
        ∙ requeue-eligible ws.in_progress ws.queue;
    same_delayed = s.delayed_kept ∙ requeue-delayed ws.in_progress ws.queue;
    drained = over;
  }

  -- Whatever state a step was saved in, resuming it always returns and loses no work: the interrupted
  -- executions, the latest first, and the attempts that could start are, in this order, running or
  -- waiting again, each once; the attempts that wait for a time are kept in their order; and every
  -- worker is taken or nothing that could start is left.
  pub rewind_worker-HasWorkOf :
      (ws : InternalStepWorkerState)
      → Gives (HasWorkOf ws) (drain_eligible_queue w now step_id (rewind_worker ws) ▷ rearm_worker)
  unfolding rearm_worker rewind_worker
  rewind_worker-HasWorkOf ws =
      Gives-▷
        (λ ws'.
          IsDrained ws' × ((started : List EventAttempt) × Started (rewind_worker ws) ws' started))
        (HasWorkOf ws) _ rearm_worker
        (drain_eligible_queue-Started w now step_id (rewind_worker ws)
          (SlotsFit-nil ws.config.num_workers))
        (λ ws' (over, (started, s)). rewound-HasWorkOf ws ws' started over s)

module _ (w : World) (now : ℤ) where
  abbrev pub IsResumed : InternalStepWorkerState → Type 0
  IsResumed ws = IsValid ws × IsDrained ws

  body-IsResumed :
      (name : String) (ws : InternalStepWorkerState)
      → Gives IsResumed (drain_eligible_queue w now (root name) (rewind_worker ws) ▷ rearm_worker)
  unfolding rearm_worker rewind_worker
  body-IsResumed name ws =
      Gives-▷ IsResumed IsResumed (drain_eligible_queue w now (root name) (rewind_worker ws))
        rearm_worker
        (Gives-map
          (λ ws'.
            IsValid ws'
            × (IsDrained ws'
                × ((started : List EventAttempt) × Started (rewind_worker ws) ws' started)))
          IsResumed _ (λ ws' (v, (over, s)). (v, over))
          (Returns-both _ _ _
            (drain-IsValid w now (root name) (rewind_worker ws)
              (SlotsFit-nil ws.config.num_workers))
            (drain_eligible_queue-Started w now (root name) (rewind_worker ws)
              (SlotsFit-nil ws.config.num_workers))))
        (λ ws' p. p)

  resumed :
      Visits
        (λ ws. Unit)
        IsResumed
        (λ name ws. drain_eligible_queue w now (root name) (rewind_worker ws) ▷ rearm_worker)
        (rewind_workers w now)
  unfolding rewind_workers
  resumed = record {
    at_end = λ s. refl;
    at_step = λ name names s. refl;
    establishes = λ name ws u. body-IsResumed name ws;
    again = λ ws p. tt;
  }

  -- Whatever state was saved, the rewind of a resumed run always returns, and then every step has
  -- valid worker slots, and all its workers are taken or nothing that could start is left.
  pub rewind_in_progress-IsResumed :
      (s : BrokerState) → Gives (EveryWorker IsResumed) (rewind_in_progress w now s)
  unfolding rewind_in_progress
  rewind_in_progress-IsResumed s = loop-EveryWorker _ _ _ _ resumed (deepcopy s) (λ name ws e. tt)
