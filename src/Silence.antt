-- ===== src/Silence.antt =====
-- Which reductions queue no event (`CommandQueueEvent` of workflows/runtime/types/commands.py), over
-- the helpers of workflows/runtime/control_loop/reduce.py and streams.py.
pub mod Arrivals
pub mod Ticks
use llama_agents.Prelude.{
  lookup, ℤ, pos, ◌+ℤ◌, leb_ℤ, zero, suc, ℕ, String, Bool, true, false, ◌≡◌, refl, Option, none,
  some, List, [], ◌∷◌, ◌++◌, All, All-append, Result, ok, raise, ◌>>=◌, Ensures, if◌then◌else◌,
}
use llama_agents.Types.{
  BrokerState, CollectionBinding, Event, EventAttempt, InternalStepWorkerState, StepId,
  WorkflowCommand, World, Error, root,
}
use llama_agents.Effects.{Emitting, Reduced, ◌▷◌, prepend, done, in_worker}
use llama_agents.Dispatch.{
  add_or_enqueue_event, start_worker, enqueue, has_space, pop_eligible, drain_eligible_queue,
  drain_rounds,
}
use llama_agents.Streams.{
  payload_of, release_attempt, fire_collection_release, release_binding, close_binding,
  close_bindings, close_collection_stream, adjust_open_work_items,
}

abbrev pub is_queue : WorkflowCommand → Bool
is_queue (WorkflowCommand.queue_event event step_id counts scope_path) = true
is_queue _ = false

abbrev pub NoQueue : List WorkflowCommand → Type 0
NoQueue cs = All (λ c. is_queue c ≡ false) cs

-- If the reduction returns, then none of its commands queues an event.
pub record IsSilent {S : Type 0} (m : Emitting S) : Type 0 where
  pub quiet : Ensures (λ r. NoQueue r.1) m

pub returns_quietly :
    {S : Type 0} (s : S) (cs : List WorkflowCommand) → NoQueue cs → IsSilent (ok (s, cs))
returns_quietly s cs h = record { quiet = h }

pub done_quietly : {S : Type 0} (s : S) → IsSilent (done s)
done_quietly s = record { quiet = tt }

module _ {S T : Type 0} where
  pub IsSilent-▷ :
      (m : Emitting S) (f : S → Emitting T)
      → IsSilent m
      → ((s : S) → IsSilent (f s))
      → IsSilent (m ▷ f)
  IsSilent-▷ (ok (s, cs)) f h k = record { quiet = after (f s) (k s).quiet }
    where
      after :
          (n : Emitting T)
          → Ensures (λ r. NoQueue r.1) n
          → Ensures (λ r. NoQueue r.1) (prepend cs n)
      after (ok (t, cs')) l = All-append (λ c. is_queue c ≡ false) cs cs' h.quiet l
      after (raise e) l = tt
  IsSilent-▷ (raise e) f h k = record { quiet = tt }

  pub IsSilent-bind :
      (m : Result Error S) (f : S → Emitting T) → ((s : S) → IsSilent (f s)) → IsSilent (m >>= f)
  IsSilent-bind (ok s) f k = k s
  IsSilent-bind (raise e) f k = record { quiet = tt }

  pub IsSilent-option :
      (o : Option S) (x : Emitting T) (f : S → Emitting T)
      → IsSilent x
      → ((s : S) → IsSilent (f s))
      → IsSilent (elim o [ none ↦ x | some s ↦ f s ])
  IsSilent-option none x f h k = h
  IsSilent-option (some s) x f h k = k s

pub IsSilent-if :
    {S : Type 0} (b : Bool) (m n : Emitting S)
    → IsSilent m
    → IsSilent n
    → IsSilent (if b then m else n)
IsSilent-if true m n h k = h
IsSilent-if false m n h k = k

pub IsSilent-in_worker :
    (name : String) (s : BrokerState) (m : Emitting InternalStepWorkerState)
    → IsSilent m
    → IsSilent (in_worker name s m)
unfolding in_worker
IsSilent-in_worker name s (ok (ws, cs)) h = record { quiet = h.quiet }
IsSilent-in_worker name s (raise e) h = record { quiet = tt }

module _ (w : World) (now : ℤ) where
  pub dispatch-IsSilent :
      (a : EventAttempt) (step_id : StepId) (ws : InternalStepWorkerState)
      → IsSilent (add_or_enqueue_event w now a step_id ws)
  unfolding add_or_enqueue_event start_worker enqueue
  dispatch-IsSilent a step_id ws =
      IsSilent-if (has_space a ws) _ _
        (IsSilent-bind _ _ (λ id. returns_quietly _ _ (refl, (refl, tt))))
        (returns_quietly _ _ (refl, tt))

  rounds-IsSilent :
      (step_id : StepId) (rounds : ℕ) (ws : InternalStepWorkerState)
      → IsSilent (drain_rounds w now step_id rounds ws)
  unfolding drain_rounds
  rounds-IsSilent step_id zero ws = done_quietly ws
  rounds-IsSilent step_id (suc rounds) ws =
      IsSilent-if _ _ _
        (IsSilent-option (pop_eligible ws.queue) _ _ (done_quietly ws) (λ popped.
          IsSilent-▷ _ (drain_rounds w now step_id rounds)
            (dispatch-IsSilent popped.0 step_id (record ws { queue = popped.1 }))
            (λ ws'. rounds-IsSilent step_id rounds ws')))
        (done_quietly ws)

  pub drain-IsSilent :
      (step_id : StepId) (ws : InternalStepWorkerState)
      → IsSilent (drain_eligible_queue w now step_id ws)
  unfolding drain_eligible_queue
  drain-IsSilent step_id ws = rounds-IsSilent step_id _ ws

  pub fire-IsSilent :
      (binding : CollectionBinding) (stream_id : String) (ws : InternalStepWorkerState)
      (events : List Event) (path : List String)
      → IsSilent (fire_collection_release w now binding stream_id ws events path)
  unfolding fire_collection_release
  fire-IsSilent binding stream_id ws events path =
      dispatch-IsSilent (release_attempt w now (payload_of w now binding stream_id events path))
        (root binding.target_step) ws

  release-IsSilent :
      (stream_id : String) (path : List String) (binding : CollectionBinding)
      (ws : InternalStepWorkerState) (s : BrokerState)
      → IsSilent (release_binding w now stream_id path binding ws s)
  unfolding release_binding
  release-IsSilent stream_id path binding ws s =
      IsSilent-option _ _ _ (done_quietly _)
        (λ release. IsSilent-in_worker _ _ _ (fire-IsSilent binding stream_id ws release path))

  bindings-IsSilent :
      (stream_id : String) (path : List String) (bindings : List CollectionBinding)
      (s : BrokerState)
      → IsSilent (close_bindings w now stream_id path bindings s)
  unfolding close_bindings close_binding
  bindings-IsSilent stream_id path [] s = done_quietly s
  bindings-IsSilent stream_id path (binding ∷ bindings) s =
      IsSilent-▷ _ (close_bindings w now stream_id path bindings)
        (IsSilent-option (lookup binding.target_step s.workers) _ _ (done_quietly s)
          (λ ws. IsSilent-if _ _ _ (done_quietly s) (release-IsSilent stream_id path binding ws s)))
        (λ s'. bindings-IsSilent stream_id path bindings s')

  close-IsSilent :
      (stream_id : String) (s : BrokerState) → IsSilent (close_collection_stream w now stream_id s)
  unfolding close_collection_stream
  close-IsSilent stream_id s =
      IsSilent-option (lookup stream_id s.streams) _ _ (done_quietly s)
        (λ stream. bindings-IsSilent stream_id stream.scope_path _ _)

  pub adjust-IsSilent :
      (stream_id : Option String) (delta : ℤ) (s : BrokerState)
      → IsSilent (adjust_open_work_items w now stream_id delta s)
  unfolding adjust_open_work_items
  adjust-IsSilent none delta s = done_quietly s
  adjust-IsSilent (some stream_id) delta s =
      IsSilent-option (lookup stream_id s.streams) _ _ (done_quietly s) (λ stream.
        IsSilent-if (leb_ℤ (stream.open_work_items +ℤ delta) (pos 0)) _ _
          (close-IsSilent stream_id _) (done_quietly _))
