-- ===== src/Framed/Interface.antt =====
-- What a predicate of the state has to allow for every tick to keep it: the changes that the
-- handlers make to one field, and the accounting of open work.
use llama_agents.Prelude.{◌+◌, ℤ, String, Bool, Option, List, Dict, ok, raise, ◌>>=◌, Ensures-bind}
use llama_agents.Types.{
  BrokerState, InternalStepWorkerState, CollectionReleaseState, Event, World, WorkflowCommand,
  deepcopy,
}
use llama_agents.Effects.{Emitting, Keeps, in_worker, put_worker, Keeps-in_worker}
use llama_agents.Streams.{adjust_open_work_items, clear_collection_state}
use llama_agents.StepResult.{open_child_stream}
use llama_agents.StepResult.Threading.{get_worker, Scope}

pub record StateInvariant (w : World) (now : ℤ) (Q : BrokerState → Type 0) : Type 0 where
  pub with_workers :
      (s : BrokerState) (workers : Dict InternalStepWorkerState)
      → Q s
      → Q (record s { workers = workers })
  pub with_running : (s : BrokerState) (b : Bool) → Q s → Q (record s { is_running = b })
  pub with_releases :
      (s : BrokerState) (releases : Dict CollectionReleaseState)
      → Q s
      → Q (record s { collection_release_states = releases })
  pub next_work_item :
      (s : BrokerState) → Q s → Q (record s { work_item_seq = s.work_item_seq + 1 })
  pub next_stream : (s : BrokerState) → Q s → Q (record s { stream_seq = s.stream_seq + 1 })
  pub cleared : (s : BrokerState) → Q s → Q (clear_collection_state s)
  pub adjusted :
      (stream_id : Option String) (delta : ℤ) (s : BrokerState)
      → Q s
      → Keeps Q (adjust_open_work_items w now stream_id delta s)
  pub opened :
      (step_name : String) (scope : Scope) (emitted : List Event) (stream_id : String)
      (s : BrokerState)
      → Q s
      → Keeps Q (open_child_stream w now step_name scope emitted stream_id s)

-- A result about which nothing is claimed.
pub Keeps-any : {S : Type 0} (m : Emitting S) → Keeps (λ s. Unit) m
Keeps-any (ok r) = tt
Keeps-any (raise e) = tt

module _ (w : World) (now : ℤ) (Q : BrokerState → Type 0) (inv : StateInvariant w now Q) where
  pub put-Q :
      (name : String) (ws : InternalStepWorkerState) (s : BrokerState)
      → Q s
      → Q (put_worker name ws s)
  unfolding put_worker
  put-Q name ws s q = inv.with_workers s _ q

  pub in_worker-Q :
      (name : String) (s : BrokerState) (m : Emitting InternalStepWorkerState)
      → Q s
      → Keeps Q (in_worker name s m)
  in_worker-Q name s m q =
      Keeps-in_worker (λ ws. Unit) Q name s m (Keeps-any m) (λ ws u. put-Q name ws s q)

  pub deepcopy-Q : (s : BrokerState) → Q s → Q (deepcopy s)
  unfolding deepcopy
  deepcopy-Q s q = inv.with_workers s _ q

-- A body that reads a worker.
pub get_worker-Keeps :
    {S : Type 0} (R : S → Type 0) (name : String) (s : BrokerState)
    (f : InternalStepWorkerState → Emitting S)
    → ((ws : InternalStepWorkerState) → Keeps R (f ws))
    → Keeps R (get_worker name s >>= f)
get_worker-Keeps R name s f k =
    Ensures-bind (λ (r : _ × List WorkflowCommand). R r.0) (get_worker name s) f k
