-- ===== src/Dispatch.antt =====
-- Handing queued attempts to workers: `_is_eligible`, `_add_or_enqueue_event` and
-- `_drain_eligible_queue` of workflows/runtime/control_loop/reduce.py.
use llama_agents.Prelude.{
  ℕ, zero, suc, ℤ, is_zero, String, Bool, ◌&&◌, Option, none, some, List, [], ◌∷◌, ◌++◌, map,
  length, contains, ltb, is_none, get_or, if◌then◌else◌, Result, ok, ◌>>=◌, from_option, decimal,
}
use llama_agents.Effects.{prepend}
use llama_agents.Types.{
  Event, class_of, step_state_changed, StepState, EventAttempt, InProgressState,
  InternalStepWorkerState, StepWorkerState, StepId, step_key, WorkflowCommand, run_worker,
  publish_event, World, Error, index_error, copy_worker,
}

unfoldable pub is_eligible : EventAttempt → Bool
is_eligible attempt = is_none attempt.not_before

-- `[i for i in range(first, first + count) if i not in used]`
unfoldable pub candidates_from : ℕ → ℕ → List ℕ → List ℕ
candidates_from first zero used = []
candidates_from first (suc count) used =
    let rest = candidates_from (suc first) count used in
    if contains used first then rest else first ∷ rest

unfoldable pub id_candidates : ℕ → List ℕ → List ℕ
unfolding candidates_from
id_candidates num_workers used = candidates_from 0 num_workers used

-- `xs[0]`
abbrev pub first : List ℕ → Option ℕ
first [] = none
first (x ∷ xs) = some x

abbrev pub worker_ids : InternalStepWorkerState → List ℕ
worker_ids ws = map (λ p. p.worker_id) ws.in_progress

unfoldable pub has_space : EventAttempt → InternalStepWorkerState → Bool
unfolding is_eligible
has_space event state = ltb (length state.in_progress) state.config.num_workers && is_eligible event

-- `x or now` on a time that may be missing or zero.
abbrev pub time_or : Option ℤ → ℤ → ℤ
time_or none now = now
time_or (some t) now = if is_zero t then now else t

abbrev pub Dispatched : Type 0
Dispatched = Result Error (InternalStepWorkerState × List WorkflowCommand)

-- The snapshot that the new execution works on.
unfoldable pub snapshot : StepId → EventAttempt → InternalStepWorkerState → StepWorkerState
snapshot step_id event state =
    let state_copy = copy_worker state in
    record {
      step_name = step_key step_id;
      collected_events = state_copy.collected_events;
      collected_waiters = state_copy.collected_waiters;
      collection_release_payload = event.collection_release_payload;
      scope_path = event.scope_path;
      work_item_id = event.work_item_id;
    }

module _ (w : World) (now_seconds : ℤ) where
  unfoldable pub execution : StepId → EventAttempt → ℕ → InternalStepWorkerState → InProgressState
  unfolding snapshot
  execution step_id event id state = record {
    event = event.event;
    worker_id = id;
    shared_state = snapshot step_id event state;
    attempts = get_or event.attempts 0;
    first_attempt_at = time_or event.first_attempt_at now_seconds;
    last_exception = event.last_exception;
    last_failed_at = event.last_failed_at;
    recovery_counts = event.recovery_counts;
    bound_events = event.bound_events;
    scope_path = event.scope_path;
    work_item_id = event.work_item_id;
  }

  unfoldable pub transition : StepId → StepState → Event → String → WorkflowCommand
  transition step_id step_state event worker_id = publish_event (
      step_state_changed step_state (step_key step_id) (w.class_name (class_of event)) none
        worker_id)

  -- The branch with space, for the worker id that was found.
  unfoldable pub start_worker : EventAttempt → StepId → InternalStepWorkerState → ℕ → Dispatched
  unfolding execution transition
  start_worker event step_id state id = ok (
    record state { in_progress = state.in_progress ++ (execution step_id event id state ∷ []) },
    run_worker step_id event.event id event.bound_events
        ∷ transition step_id StepState.running event.event (decimal id)
        ∷ [],
  )

  unfoldable pub enqueue : EventAttempt → StepId → InternalStepWorkerState → Dispatched
  unfolding transition
  enqueue event step_id state = ok (
    record state { queue = state.queue ++ (event ∷ []) },
    transition step_id StepState.preparing event.event "<enqueued>" ∷ [],
  )

  unfoldable pub add_or_enqueue_event : EventAttempt → StepId → InternalStepWorkerState → Dispatched
  unfolding has_space id_candidates start_worker enqueue
  add_or_enqueue_event event step_id state =
      if has_space event state
      then from_option (first (id_candidates state.config.num_workers (worker_ids state)))
          index_error
        >>= start_worker event step_id state
      else enqueue event step_id state

unfoldable pub keep_front :
    EventAttempt
    → Option (EventAttempt × List EventAttempt)
    → Option (EventAttempt × List EventAttempt)
keep_front a none = none
keep_front a (some (b, queue)) = some (b, a ∷ queue)

-- The first eligible attempt of a queue, and the queue without it.
unfoldable pub pop_eligible : List EventAttempt → Option (EventAttempt × List EventAttempt)
unfolding is_eligible keep_front
pop_eligible [] = none
pop_eligible (a ∷ queue) =
    let rest = pop_eligible queue in if is_eligible a then some (a, queue) else keep_front a rest

module _ (w : World) (now_seconds : ℤ) (step_id : StepId) where
  -- The rounds of the `while` loop. Each takes one attempt off the queue.
  unfoldable pub drain_rounds : ℕ → InternalStepWorkerState → Dispatched
  unfolding pop_eligible add_or_enqueue_event
  drain_rounds zero state = ok (state, [])
  drain_rounds (suc rounds) state =
      let round : Dispatched = elim (pop_eligible state.queue) [
        | none ↦ ok (state, [])
        | some (attempt, queue) ↦
            add_or_enqueue_event w now_seconds attempt step_id (record state { queue = queue })
            >>= λ (state', commands). prepend commands (drain_rounds rounds state')
      ] in
      if ltb (length state.in_progress) state.config.num_workers then round else ok (state, [])

  unfoldable pub drain_eligible_queue : InternalStepWorkerState → Dispatched
  unfolding drain_rounds
  drain_eligible_queue state = drain_rounds (length state.queue) state
