-- ===== src/Rerunning.antt =====
-- Collected events and their optimistic snapshots (the `AddCollectedEvent` branch of
-- `_apply_step_result`, workflows/runtime/control_loop/reduce.py).
use llama_agents.Prelude.{
  ℕ, ◌≤◌, ◌<◌, ◌≡◌, refl, ap, ◌∙◌, ◌⊎◌, inl, inr, String, true, false, Option, some, List, [], ◌∷◌,
  ◌++◌, length, find, ◌==◌, str_eq, lookup, assign, lookup-assign, lookup-assign_same, arith,
  if_case, Dict, get_or, ltb, ltb→lt, ltb→le, Bool-cases,
}
use llama_agents.Types.{
  Event, InProgressState, InternalStepWorkerState, TickStepResult, World, run_worker, step_key,
}
use llama_agents.Effects.{put_worker}
use llama_agents.StepResult.Threading.{Progress, collected_or_empty, set_execution}
use llama_agents.StepResult.Apply.{apply_add_collected, rerun_collect, is_ahead}

-- The execution on a worker.
abbrev pub execution_on : ℕ → InternalStepWorkerState → Option InProgressState
execution_on id ws = find (λ p. p.worker_id == id) ws.in_progress

set_execution-found :
    (p q : InProgressState) (ps : List InProgressState)
    → find (λ x. x.worker_id == p.worker_id) ps ≡ some q
    → find (λ x. x.worker_id == p.worker_id) (set_execution p ps) ≡ some p
unfolding set_execution
set_execution-found p q [] e = cc
set_execution-found p q (x ∷ ps) e = elim (Bool-cases (x.worker_id == p.worker_id)) [
  | inl same ↦ rw (same, same_id p.worker_id) refl
  | inr other ↦ rw (other, other) (set_execution-found p q ps (rw other at e))
]
  where
    same_id : (n : ℕ) → (n == n) ≡ true
    same_id n = ground arith

module _ (tick : TickStepResult) (event_id : String) (event : Event) where
  abbrev pub buffer : InternalStepWorkerState → List Event
  buffer ws = get_or (lookup event_id ws.collected_events) []

  -- What the execution has seen of the buffer.
  abbrev pub seen : InProgressState → List Event
  seen p = get_or (lookup event_id p.shared_state.collected_events) []

  -- The event is appended to the buffer and to no other, and that is all.
  pub record IsAppended (ws ws' : InternalStepWorkerState) (acc acc' : Progress) : Type 0 where
    pub level : length (buffer ws) ≤ length (seen acc.this_execution)
    pub appended : buffer ws' ≡ buffer ws ++ event ∷ []
    pub others :
        (id : String)
        → str_eq event_id id ≡ false
        → lookup id ws'.collected_events ≡ lookup id ws.collected_events
    pub same_executions : ws'.in_progress ≡ ws.in_progress
    pub no_command : acc'.commands ≡ acc.commands
    pub same_end : acc'.step_no_longer_in_progress ≡ acc.step_no_longer_in_progress

  -- Nothing is appended: the execution stays on its worker, is started again there, and has seen the
  -- buffer as it is.
  pub record IsRerun (ws ws' : InternalStepWorkerState) (acc acc' : Progress) : Type 0 where
    pub behind : length (seen acc.this_execution) < length (buffer ws)
    pub same_buffer : buffer ws' ≡ buffer ws
    pub caught_up : seen acc'.this_execution ≡ buffer ws
    pub same_worker : acc'.this_execution.worker_id ≡ acc.this_execution.worker_id
    pub stays : execution_on acc.this_execution.worker_id ws' ≡ some acc'.this_execution
    pub on : acc'.step_no_longer_in_progress ≡ false
    pub started :
        acc'.commands
        ≡ acc.commands
          ++ run_worker tick.step_id event acc.this_execution.worker_id
              acc.this_execution.bound_events
            ∷ []

  -- After the result, for a step that had the worker state `ws`.
  abbrev pub IsSerial : InternalStepWorkerState → Progress → Progress → Type 0
  IsSerial ws acc acc' =
      (ws' : InternalStepWorkerState) × (lookup (step_key tick.step_id) acc'.state.workers
        ≡ some ws')
      × (IsAppended ws ws' acc acc' ⊎ IsRerun ws ws' acc acc')

  buffer-assign :
      (es : List Event) (d : Dict (List Event))
      → get_or (lookup event_id (assign event_id es d)) [] ≡ es
  buffer-assign es d = ap (λ o. get_or o []) (lookup-assign_same event_id es d)

  others-assign :
      (es : List Event) (d : Dict (List Event)) (id : String)
      → str_eq event_id id ≡ false
      → lookup id (assign event_id es d) ≡ lookup id d
  others-assign es d id other = lookup-assign event_id id es d ∙ rw other refl

  module _ (w : World) (run_id : Option String) where
    rerun-IsSerial :
        (ws : InternalStepWorkerState) (acc : Progress)
        → execution_on acc.this_execution.worker_id ws ≡ some acc.this_execution
        → length (seen acc.this_execution) < length (buffer ws)
        → IsSerial ws acc (
            rerun_collect w run_id tick event ws
              (assign event_id (buffer ws) ws.collected_events)
              acc)
    unfolding rerun_collect put_worker
    rerun-IsSerial ws acc there behind = (
      _,
      lookup-assign_same (step_key tick.step_id) _ acc.state.workers,
      inr (record {
        behind = behind;
        same_buffer = buffer-assign (buffer ws) ws.collected_events;
        caught_up = buffer-assign (buffer ws) ws.collected_events;
        same_worker = refl;
        stays = set_execution-found _ acc.this_execution ws.in_progress there;
        on = refl;
        started = refl;
      }),
    )

    -- An event that an execution on a worker adds to a buffer is appended to the live buffer if that
    -- is at most as long as what the execution has seen of it; no other buffer and no execution
    -- changes and no command is given. If the live buffer is longer, then nothing is appended: the
    -- execution stays on its worker, one command starts it there again, and it has seen the live
    -- buffer.
    pub apply_add_collected-IsSerial :
        (ws : InternalStepWorkerState) (acc : Progress)
        → execution_on acc.this_execution.worker_id ws ≡ some acc.this_execution
        → IsSerial ws acc (apply_add_collected w run_id tick event_id event ws acc)
    unfolding apply_add_collected is_ahead collected_or_empty put_worker
    apply_add_collected-IsSerial ws acc there =
        if_case (IsSerial ws acc) (ltb (length (seen acc.this_execution)) (length (buffer ws))) _ _
          (λ ahead. rerun-IsSerial ws acc there (ltb→lt _ _ ahead))
          (λ level. (
            _,
            lookup-assign_same (step_key tick.step_id) _ acc.state.workers,
            inl (record {
              level = ltb→le _ _ level;
              appended = buffer-assign (buffer ws ++ event ∷ []) ws.collected_events;
              others = others-assign (buffer ws ++ event ∷ []) ws.collected_events;
              same_executions = refl;
              no_command = refl;
              same_end = refl;
            }),
          ))
