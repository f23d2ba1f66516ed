-- ===== src/Looping/Stamping.antt =====
-- Stamped failures (`_stamp_retry_decisions` of workflows/runtime/control_loop/runner.py) as the
-- reducer reads them (`_schedule_retry_or_route_failure` of
-- workflows/runtime/control_loop/reduce.py).
use llama_agents.Prelude.{
  ℕ, ◌+◌, ◌≡◌, refl, ℤ, ◌-ℤ◌, String, true, Option, none, some, is_some, Option-cases, inl, inr,
}
use llama_agents.Types.{
  World, Exception, RetryDecision, BrokerConfig, InProgressState, StepWorkerFailed,
}
use llama_agents.Failure.{
  Outcome, outcome, decide_retry_delay, retry_delay, retry_attempt, failure_first_attempt_at,
  total_attempts, handler_of, route_or_fail, not_before_of,
}
use llama_agents.Looping.Workers.{stamp_failure}

-- A failure as a step function or the runner makes it, without the time of the first attempt.
abbrev pub made : Exception → ℤ → Option RetryDecision → StepWorkerFailed
made exception failed_at decision = record {
  exception = exception;
  failed_at = failed_at;
  retry_decision = decision;
  first_attempt_at = none;
}

module _ (w : World) (run_id : Option String) (policy : Option ℕ) (step_name : String)
    (worker : InProgressState) where
  abbrev stamped : StepWorkerFailed → StepWorkerFailed
  stamped failure = stamp_failure w run_id policy step_name worker failure

  abbrev leads_to : BrokerConfig → StepWorkerFailed → Outcome
  leads_to config failure = outcome w run_id step_name failure worker config policy

  -- A stamped failure carries a decision, and leads to what the failure leads to where the reducer
  -- asks the policy itself: so a journaled tick is reduced as the live run did, without the policy.
  pub stamp_failure-outcome :
      (exception : Exception) (failed_at : ℤ) (decision : Option RetryDecision)
      (config : BrokerConfig)
      → (is_some (stamped (made exception failed_at decision)).retry_decision ≡ true)
        × (leads_to config (stamped (made exception failed_at decision))
            ≡ leads_to config (made exception failed_at decision))
  unfolding stamp_failure outcome retry_delay retry_attempt failure_first_attempt_at total_attempts
      handler_of route_or_fail not_before_of
  stamp_failure-outcome exception failed_at (some decision) config = (refl, refl)
  stamp_failure-outcome exception failed_at none config = (
    refl,
    elim (Option-cases (
        decide_retry_delay w policy (failed_at -ℤ worker.first_attempt_at) (worker.attempts + 1)
          exception run_id step_name)) [
            | inl over ↦ rw (over, outcome, retry_delay) refl
            | inr (delay, e) ↦ rw (e, outcome, retry_delay) refl
          ],
  )
