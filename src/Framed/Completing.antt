-- ===== src/Framed/Completing.antt =====
-- The effect of the results of an execution (`_apply_step_result` of
-- workflows/runtime/control_loop/reduce.py) keeps a predicate of the state.
use llama_agents.Prelude.{
  ℤ, inl, inr, String, Bool, true, false, Option, none, some, List, [], ◌∷◌, Bool-cases,
  Option-cases, if_case, ok, ◌>>=◌, Ensures, Ensures-chain, Ensures-bind,
}
use llama_agents.Types.{
  Event, BrokerState, InternalStepWorkerState, TickStepResult, World, step_key,
}
use llama_agents.StepResult.Apply.{apply_step_results}
use llama_agents.StepResult.Threading.{Scope, Progress, get_worker}
use llama_agents.StepResult.Apply.{
  apply_outcome, apply_failure, rerun_collect, is_ahead, apply_add_collected, apply_add_waiter,
  replace_waiter, new_waiter, delete_if_complete, apply_in_worker, apply_step_result,
}
use llama_agents.StepResult.Threading.{apply_event, stop_run}
use llama_agents.Failure.{Outcome}
use llama_agents.Types.{
  StepFunctionResult, StepWorkerFailed, AddWaiter, stop_event, input_required_event,
}
use llama_agents.Matching.{isinstance}
use llama_agents.Framed.Interface.{StateInvariant, put-Q}

module _ (w : World) (now : ℤ) (Q : BrokerState → Type 0) (inv : StateInvariant w now Q) where
  abbrev pub HasQ : Progress → Type 0
  HasQ acc = Q acc.state

  apply_event-Q :
      (scope : Scope) (event : Event) (acc : Progress)
      → HasQ acc
      → HasQ (apply_event w scope event acc)
  unfolding apply_event stop_run
  apply_event-Q scope event acc q = elim (Bool-cases (isinstance w event stop_event)) [
    | inl stops ↦
        rw (stops, apply_event)
          (inv.cleared _ (inv.with_workers _ _ (inv.with_running acc.state false q)))
    | inr goes_on ↦ elim (Bool-cases (isinstance w event input_required_event)) [
      | inl asks ↦ rw (goes_on, apply_event, asks) q
      | inr plain ↦ rw (goes_on, apply_event, plain) q
    ]
  ]

  module _ (run_id : Option String) (tick : TickStepResult) where
    apply_outcome-Q :
        (failure : StepWorkerFailed) (ws : InternalStepWorkerState) (o : Outcome) (acc : Progress)
        → HasQ acc
        → HasQ (apply_outcome w run_id tick failure ws o acc)
    unfolding apply_outcome
    apply_outcome-Q failure ws (Outcome.retry a) acc q =
        put-Q w now Q inv (step_key tick.step_id) _ acc.state q
    apply_outcome-Q failure ws (Outcome.recover handler count) acc q = q
    apply_outcome-Q failure ws Outcome.give_up acc q = inv.with_running acc.state false q

    apply_add_collected-Q :
        (event_id : String) (event : Event) (ws : InternalStepWorkerState) (acc : Progress)
        → HasQ acc
        → HasQ (apply_add_collected w run_id tick event_id event ws acc)
    unfolding apply_add_collected rerun_collect
    apply_add_collected-Q event_id event ws acc q =
        if_case HasQ (is_ahead w run_id tick event_id ws acc.this_execution) _ _
          (λ ahead. put-Q w now Q inv (step_key tick.step_id) _ acc.state q)
          (λ level. put-Q w now Q inv (step_key tick.step_id) _ acc.state q)

    apply_add_waiter-Q :
        (added : AddWaiter) (ws : InternalStepWorkerState) (acc : Progress)
        → HasQ acc
        → HasQ (apply_add_waiter w run_id tick added ws acc)
    unfolding apply_add_waiter
    apply_add_waiter-Q added ws acc q =
        elim (Option-cases (
          replace_waiter w run_id tick (new_waiter w run_id tick added acc.this_execution)
            ws.collected_waiters)) [
              | inl new ↦
                  rw (new, apply_add_waiter)
                    (put-Q w now Q inv (step_key tick.step_id) _ acc.state q)
              | inr (replaced, e) ↦
                  rw (e, apply_add_waiter) (put-Q w now Q inv (step_key tick.step_id) _ acc.state q)
            ]

    delete_if_complete-Q :
        (b : Bool) (ws : InternalStepWorkerState) (acc : Progress)
        → HasQ acc
        → HasQ (delete_if_complete w run_id tick b ws acc)
    unfolding delete_if_complete
    delete_if_complete-Q true ws acc q = put-Q w now Q inv (step_key tick.step_id) ws acc.state q
    delete_if_complete-Q false ws acc q = q

    apply_in_worker-Q :
        (b : Bool) (result : StepFunctionResult) (ws : InternalStepWorkerState) (acc : Progress)
        → HasQ acc
        → HasQ (apply_in_worker w run_id tick b result ws acc)
    unfolding apply_in_worker apply_failure
    apply_in_worker-Q b (StepFunctionResult.worker_result _ _) ws acc q = q
    apply_in_worker-Q b (StepFunctionResult.worker_failed failure) ws acc q =
        apply_outcome-Q failure ws _ acc q
    apply_in_worker-Q b (StepFunctionResult.add_collected_event event_id event) ws acc q =
        apply_add_collected-Q event_id event ws acc q
    apply_in_worker-Q b (StepFunctionResult.delete_collected_event event_id) ws acc q =
        delete_if_complete-Q b _ acc q
    apply_in_worker-Q b (StepFunctionResult.add_waiter added) ws acc q =
        apply_add_waiter-Q added ws acc q
    apply_in_worker-Q b (StepFunctionResult.delete_waiter waiter_id) ws acc q =
        delete_if_complete-Q b _ acc q

    module _ (scope : Scope) (complete : Bool) where
      in_the_worker :
          (result : StepFunctionResult) (acc : Progress)
          → HasQ acc
          → Ensures HasQ (
              get_worker (step_key tick.step_id) acc.state >>= λ ws.
              ok (apply_in_worker w run_id tick complete result ws acc))
      in_the_worker result acc q =
          Ensures-bind HasQ (get_worker (step_key tick.step_id) acc.state) _
            (λ ws. apply_in_worker-Q complete result ws acc q)

      apply_step_result-Q :
          (result : StepFunctionResult) (acc : Progress)
          → HasQ acc
          → Ensures HasQ (apply_step_result w run_id tick scope complete result acc)
      unfolding apply_step_result
      apply_step_result-Q (StepFunctionResult.worker_result none _) acc q = q
      apply_step_result-Q (StepFunctionResult.worker_result (some event) _) acc q =
          apply_event-Q scope event acc q
      apply_step_result-Q (StepFunctionResult.worker_failed failure) acc q =
          in_the_worker (StepFunctionResult.worker_failed failure) acc q
      apply_step_result-Q (StepFunctionResult.add_collected_event event_id event) acc q =
          in_the_worker (StepFunctionResult.add_collected_event event_id event) acc q
      apply_step_result-Q (StepFunctionResult.delete_collected_event event_id) acc q =
          in_the_worker (StepFunctionResult.delete_collected_event event_id) acc q
      apply_step_result-Q (StepFunctionResult.add_waiter added) acc q =
          in_the_worker (StepFunctionResult.add_waiter added) acc q
      apply_step_result-Q (StepFunctionResult.delete_waiter waiter_id) acc q =
          in_the_worker (StepFunctionResult.delete_waiter waiter_id) acc q

      pub apply_step_results-Q :
          (results : List StepFunctionResult) (acc : Progress)
          → HasQ acc
          → Ensures HasQ (apply_step_results w run_id tick scope complete results acc)
      unfolding apply_step_results
      apply_step_results-Q [] acc q = q
      apply_step_results-Q (result ∷ results) acc q =
          Ensures-chain HasQ HasQ _ _ (apply_step_result-Q result acc q)
            (λ acc' q'. apply_step_results-Q results acc' q')
