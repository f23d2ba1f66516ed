-- ===== src/Invariant/Local.antt =====
-- An invariant of one step's worker state, and the reading and writing of `state.workers`.
use llama_agents.Prelude.{
  ◌≡◌, inl, inr, String, some, List, [], ◌∷◌, All, All-assign, All-lookup, Option-cases, values,
  lookup, ℤ, Dict, ◌>>=◌,
}
use llama_agents.Types.{
  BrokerState, InternalStepWorkerState, EventAttempt, StepId, StepWorkerWaiter, Event, TickAddEvent,
  World, copy_worker, copy_workers, deepcopy,
}
use llama_agents.Effects.{Emitting, Keeps, Gives, put_worker, in_worker, Gives-in_worker}
use llama_agents.Dispatch.{add_or_enqueue_event}
use llama_agents.AddEvent.Delivery.{consume_superseded_delayed_attempt}
use llama_agents.StepResult.Threading.{get_worker}

-- What each of the changes that an event or a release makes has to preserve.
pub record LocalInvariant (w : World) (now : ℤ) (P : InternalStepWorkerState → Type 0)
    : Type 0 where
  pub dispatch :
      (event : EventAttempt) (step_id : StepId) (ws : InternalStepWorkerState)
      → P ws
      → Gives P (add_or_enqueue_event w now event step_id ws)
  pub with_waiters :
      (ws : InternalStepWorkerState) (waiters : List StepWorkerWaiter)
      → P ws
      → P (record ws { collected_waiters = waiters })
  pub with_statics :
      (ws : InternalStepWorkerState) (events : List Event)
      → P ws
      → P (record ws { static_collect_events = events })
  pub superseded :
      (tick : TickAddEvent) (ws : InternalStepWorkerState)
      → P ws
      → P (consume_superseded_delayed_attempt tick ws)
  pub copy : (ws : InternalStepWorkerState) → P ws → P (copy_worker ws)

module _ (P : InternalStepWorkerState → Type 0) where
  abbrev pub AllWorkers : BrokerState → Type 0
  AllWorkers s = All P (values s.workers)

  pub AllWorkers-put :
      (name : String) (ws : InternalStepWorkerState) (s : BrokerState)
      → P ws
      → AllWorkers s
      → AllWorkers (put_worker name ws s)
  unfolding put_worker
  AllWorkers-put name ws s p h = All-assign P name ws s.workers p h

  pub AllWorkers-lookup :
      (name : String) (s : BrokerState) (ws : InternalStepWorkerState)
      → AllWorkers s
      → lookup name s.workers ≡ some ws
      → P ws
  AllWorkers-lookup name s ws h e = All-lookup P name s.workers ws h e

  -- A body that reads a worker may use that it satisfies the invariant.
  pub Keeps-get_worker :
      {S : Type 0} (Q : S → Type 0) (name : String) (s : BrokerState)
      (f : InternalStepWorkerState → Emitting S)
      → AllWorkers s
      → ((ws : InternalStepWorkerState) → P ws → Keeps Q (f ws))
      → Keeps Q (get_worker name s >>= f)
  unfolding get_worker
  Keeps-get_worker Q name s f h k = elim (Option-cases (lookup name s.workers)) [
    | inl missing ↦ rw missing tt
    | inr (ws, e) ↦ rw e (k ws (AllWorkers-lookup name s ws h e))
  ]

  pub in_worker-AllWorkers :
      (name : String) (s : BrokerState) (m : Emitting InternalStepWorkerState)
      → AllWorkers s
      → Gives P m
      → Gives AllWorkers (in_worker name s m)
  in_worker-AllWorkers name s m h g =
      Gives-in_worker P AllWorkers name s m g (λ ws p. AllWorkers-put name ws s p h)

  module _ (copies : (ws : InternalStepWorkerState) → P ws → P (copy_worker ws)) where
    copies-All :
        (d : Dict InternalStepWorkerState) → All P (values d) → All P (values (copy_workers d))
    unfolding copy_workers
    copies-All [] h = tt
    copies-All ((name, ws) ∷ d) h = (copies ws h.0, copies-All d h.1)

    pub deepcopy-AllWorkers : (s : BrokerState) → AllWorkers s → AllWorkers (deepcopy s)
    unfolding deepcopy
    deepcopy-AllWorkers s h = copies-All s.workers h
