-- ===== src/Capacity/Finishing.antt =====
-- A finished execution (workflows/runtime/control_loop/reduce.py, `_process_step_result_tick`) keeps
-- the worker slots of every step.
use llama_agents.Prelude.{
  ℕ, ◌≡◌, refl, ap, inl, inr, String, Bool, Option, none, some, List, [], ◌∷◌, map, All,
  Option-cases, arith, if_case, lookup, assign, values, Dict, ok, ◌>>=◌, Ensures, Ensures-chain,
}
use llama_agents.Types.{
  Event, BrokerState, InProgressState, InternalStepWorkerState, StepWorkerFailed,
  StepFunctionResult, AddWaiter, TickStepResult, World, stop_event, input_required_event,
  copy_worker, copy_in_progress, step_key,
}
use llama_agents.Effects.{put_worker}
use llama_agents.Matching.{isinstance}
use llama_agents.Failure.{Outcome}
use llama_agents.StepResult.Apply.{
  apply_outcome, apply_failure, rerun_collect, apply_add_collected, apply_add_waiter,
  replace_waiter, new_waiter, delete_if_complete, apply_in_worker, apply_step_result,
  apply_step_results, is_ahead,
}
use llama_agents.StepResult.Threading.{
  Scope, Progress, get_worker, set_execution, clear_workers, stop_run, apply_event,
  collected_or_empty,
}
use llama_agents.Invariant.Local.{AllWorkers-put, AllWorkers-lookup}
use llama_agents.Capacity.Slots.{IsValid, AllValid, SlotsFit, SlotsFit-nil, ids_of}

set_execution-ids :
    (p : InProgressState) (ps : List InProgressState) → ids_of (set_execution p ps) ≡ ids_of ps
unfolding set_execution
set_execution-ids p [] = refl
set_execution-ids p (q ∷ ps) = ground (arith, set_execution-ids p ps)

-- A write to an execution keeps the slots.
pub set_execution-IsValid :
    (p : InProgressState) (n : ℕ) (ps : List InProgressState)
    → SlotsFit n (ids_of ps)
    → SlotsFit n (ids_of (set_execution p ps))
set_execution-IsValid p n ps v = rw (set_execution-ids p ps) v

copies-ids : (ps : List InProgressState) → ids_of (map copy_in_progress ps) ≡ ids_of ps
unfolding copy_in_progress
copies-ids [] = refl
copies-ids (p ∷ ps) = ap (◌∷◌ p.worker_id) (copies-ids ps)

pub copy_worker-IsValid : (ws : InternalStepWorkerState) → IsValid ws → IsValid (copy_worker ws)
unfolding copy_worker
copy_worker-IsValid ws v = rw (copies-ids ws.in_progress) v

clear_workers-IsValid : (d : Dict InternalStepWorkerState) → All IsValid (values (clear_workers d))
unfolding clear_workers
clear_workers-IsValid [] = tt
clear_workers-IsValid ((name, ws) ∷ d) =
    (SlotsFit-nil ws.config.num_workers, clear_workers-IsValid d)

stop_run-AllValid : (s : BrokerState) → AllValid (stop_run s)
unfolding stop_run
stop_run-AllValid s = clear_workers-IsValid s.workers

pub record Sound (acc : Progress) : Type 0 where
  pub valid : AllValid acc.state

module _ (w : World) (run_id : Option String) (tick : TickStepResult) where
  apply_event-Sound :
      (scope : Scope) (event : Event) (acc : Progress)
      → Sound acc
      → Sound (apply_event w scope event acc)
  unfolding apply_event
  apply_event-Sound scope event acc h =
      if_case Sound (isinstance w event stop_event) _ _
        (λ stops. record { valid = stop_run-AllValid acc.state })
        (λ goes_on.
          if_case Sound (isinstance w event input_required_event) _ _
            (λ asks. record { valid = h.valid }) (λ plain. record { valid = h.valid }))

  module _ (ws : InternalStepWorkerState) (v : IsValid ws) (acc : Progress) (h : Sound acc) where
    -- A write of a worker with the same slots.
    put :
        (ws' : InternalStepWorkerState)
        → IsValid ws'
        → AllValid (put_worker (step_key tick.step_id) ws' acc.state)
    put ws' v' = AllWorkers-put IsValid (step_key tick.step_id) ws' acc.state v' h.valid

    apply_outcome-Sound :
        (failure : StepWorkerFailed) (o : Outcome)
        → Sound (apply_outcome w run_id tick failure ws o acc)
    unfolding apply_outcome
    apply_outcome-Sound failure (Outcome.retry attempt) = record {
      valid = put (record ws { queue = attempt ∷ ws.queue }) v;
    }
    apply_outcome-Sound failure (Outcome.recover handler count) = record { valid = h.valid }
    apply_outcome-Sound failure Outcome.give_up = record { valid = h.valid }

    rerun_collect-Sound :
        (event : Event) (collected : Dict (List Event))
        → Sound (rerun_collect w run_id tick event ws collected acc)
    unfolding rerun_collect
    rerun_collect-Sound event collected = record {
      valid = put _ (
          set_execution-IsValid
            (record acc.this_execution {
              shared_state = record acc.this_execution.shared_state {
                collected_events = collected;
              };
            })
            ws.config.num_workers ws.in_progress v);
    }

    add_collected-Sound :
        (event_id : String) (event : Event)
        → Sound (apply_add_collected w run_id tick event_id event ws acc)
    unfolding apply_add_collected
    add_collected-Sound event_id event =
        if_case Sound (is_ahead w run_id tick event_id ws acc.this_execution) _ _
          (λ ahead.
            rerun_collect-Sound event (
              assign event_id (collected_or_empty event_id ws.collected_events)
                ws.collected_events))
          (λ current. record { valid = put _ v })

    add_waiter-Sound : (added : AddWaiter) → Sound (apply_add_waiter w run_id tick added ws acc)
    unfolding apply_add_waiter
    add_waiter-Sound added =
        elim (Option-cases (
          replace_waiter w run_id tick (new_waiter w run_id tick added acc.this_execution)
            ws.collected_waiters)) [
              | inl new ↦ rw (new, apply_add_waiter) (record { valid = put _ v })
              | inr (replaced, e) ↦ rw (e, apply_add_waiter) (record { valid = put _ v })
            ]

    apply_in_worker-Sound :
        (did_complete : Bool) (result : StepFunctionResult)
        → Sound (apply_in_worker w run_id tick did_complete result ws acc)
    unfolding apply_in_worker apply_failure delete_if_complete
    apply_in_worker-Sound did (StepFunctionResult.worker_result _ _) = h
    apply_in_worker-Sound did (StepFunctionResult.worker_failed failure) =
        apply_outcome-Sound failure _
    apply_in_worker-Sound did (StepFunctionResult.add_collected_event event_id event) =
        add_collected-Sound event_id event
    apply_in_worker-Sound did (StepFunctionResult.delete_collected_event event_id) =
        if_case Sound did _ _ (λ c. record { valid = put _ v }) (λ n. h)
    apply_in_worker-Sound did (StepFunctionResult.add_waiter added) = add_waiter-Sound added
    apply_in_worker-Sound did (StepFunctionResult.delete_waiter waiter_id) =
        if_case Sound did _ _ (λ c. record { valid = put _ v }) (λ n. h)

  module _ (scope : Scope) (did_complete : Bool) where
    in_place :
        (result : StepFunctionResult) (acc : Progress)
        → Sound acc
        → Ensures Sound (
            get_worker (step_key tick.step_id) acc.state >>= λ ws.
            ok (apply_in_worker w run_id tick did_complete result ws acc))
    unfolding get_worker
    in_place result acc h = elim (Option-cases (lookup (step_key tick.step_id) acc.state.workers)) [
      | inl missing ↦ rw missing tt
      | inr (ws, e) ↦ rw e (
          apply_in_worker-Sound ws
            (AllWorkers-lookup IsValid (step_key tick.step_id) acc.state ws h.valid e) acc h
            did_complete result)
    ]

    apply_step_result-Sound :
        (result : StepFunctionResult) (acc : Progress)
        → Sound acc
        → Ensures Sound (apply_step_result w run_id tick scope did_complete result acc)
    unfolding apply_step_result
    apply_step_result-Sound (StepFunctionResult.worker_result none _) acc h = record {
      valid = h.valid;
    }
    apply_step_result-Sound (StepFunctionResult.worker_result (some event) _) acc h =
        apply_event-Sound scope event acc h
    apply_step_result-Sound (StepFunctionResult.worker_failed failure) acc h =
        in_place (StepFunctionResult.worker_failed failure) acc h
    apply_step_result-Sound (StepFunctionResult.add_collected_event event_id event) acc h =
        in_place (StepFunctionResult.add_collected_event event_id event) acc h
    apply_step_result-Sound (StepFunctionResult.delete_collected_event event_id) acc h =
        in_place (StepFunctionResult.delete_collected_event event_id) acc h
    apply_step_result-Sound (StepFunctionResult.add_waiter added) acc h =
        in_place (StepFunctionResult.add_waiter added) acc h
    apply_step_result-Sound (StepFunctionResult.delete_waiter waiter_id) acc h =
        in_place (StepFunctionResult.delete_waiter waiter_id) acc h

    pub apply_step_results-Sound :
        (results : List StepFunctionResult) (acc : Progress)
        → Sound acc
        → Ensures Sound (apply_step_results w run_id tick scope did_complete results acc)
    unfolding apply_step_results
    apply_step_results-Sound [] acc h = h
    apply_step_results-Sound (result ∷ results) acc h =
        Ensures-chain Sound Sound _ _ (apply_step_result-Sound result acc h)
          (apply_step_results-Sound results)
