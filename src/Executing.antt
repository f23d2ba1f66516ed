-- ===== src/Executing.antt =====
-- From an attempt to its execution: a start on a worker (`_add_or_enqueue_event`, the branch with
-- space) and what a wakeup leaves of an attempt, of workflows/runtime/control_loop/reduce.py.
use llama_agents.Prelude.{
  ℕ, ◌≡◌, refl, sym, ap, ◌∙◌, ◌⊎◌, inl, inr, ℤ, some, some-injective, List, [], last?, last-snoc,
  get_or, if_case, ok, raise,
}
use llama_agents.Types.{
  EventAttempt, InProgressState, InternalStepWorkerState, StepId, World, WorkflowCommand,
}
use llama_agents.Dispatch.{Dispatched, start_worker, execution}
use llama_agents.Timers.{is_due, make_eligible}

-- The attempt is started on some worker of some step, and the execution is what that adds.
abbrev pub Runs : World → ℤ → EventAttempt → InProgressState → Type 0
Runs w now a p =
    (step_id : StepId) × (ws : InternalStepWorkerState) × (id : ℕ) × (ws' : InternalStepWorkerState)
    × (commands : List WorkflowCommand) × (start_worker w now a step_id ws id ≡ ok (ws', commands))
    × (last? ws'.in_progress ≡ some p)

-- The attempt as it stands in a queue, or as a wakeup leaves it.
abbrev pub IsQueuedAs : EventAttempt → EventAttempt → Type 0
IsQueuedAs a b = (b ≡ a) ⊎ ((due : ℤ) × (b ≡ make_eligible due a))

module _ (w : World) (now : ℤ) (a : EventAttempt) (p : InProgressState) where
  pub Runs-execution :
      Runs w now a p
      → (step_id : StepId) × (ws : InternalStepWorkerState) × (id : ℕ) × (p
          ≡ execution w now step_id a id ws)
  unfolding start_worker
  Runs-execution (step_id, ws, id, ws', commands, started, newest) = (
    step_id,
    ws,
    id,
    some-injective p (execution w now step_id a id ws) (
        sym newest
        ∙ ap last? (sym (ap running started))
        ∙ last-snoc ws.in_progress (execution w now step_id a id ws)),
  )
    where
      running : Dispatched → List InProgressState
      running (ok r) = r.0.in_progress
      running (raise e) = []

  pub Runs-attempts : Runs w now a p → p.attempts ≡ get_or a.attempts 0
  unfolding execution
  Runs-attempts runs = let (step_id, ws, id, e) = Runs-execution runs in ap (λ q. q.attempts) e

  pub Runs-recovery_counts : Runs w now a p → p.recovery_counts ≡ a.recovery_counts
  unfolding execution
  Runs-recovery_counts runs =
      let (step_id, ws, id, e) = Runs-execution runs in ap (λ q. q.recovery_counts) e

pub IsQueuedAs-attempts : (a b : EventAttempt) → IsQueuedAs a b → b.attempts ≡ a.attempts
unfolding make_eligible
IsQueuedAs-attempts a b (inl same) = ap (λ x. x.attempts) same
IsQueuedAs-attempts a b (inr (due, woken)) =
    ap (λ x. x.attempts) woken
    ∙ if_case {A = EventAttempt} (λ x. x.attempts ≡ a.attempts) (is_due due a) _ _ (λ over. refl)
        (λ still. refl)

pub IsQueuedAs-recovery_counts :
    (a b : EventAttempt) → IsQueuedAs a b → b.recovery_counts ≡ a.recovery_counts
unfolding make_eligible
IsQueuedAs-recovery_counts a b (inl same) = ap (λ x. x.recovery_counts) same
IsQueuedAs-recovery_counts a b (inr (due, woken)) =
    ap (λ x. x.recovery_counts) woken
    ∙ if_case {A = EventAttempt} (λ x. x.recovery_counts ≡ a.recovery_counts) (is_due due a) _ _
        (λ over. refl) (λ still. refl)
