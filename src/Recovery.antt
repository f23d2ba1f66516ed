-- ===== src/Recovery.antt =====
-- What a failed execution leads to (`_schedule_retry_or_route_failure` of
-- workflows/runtime/control_loop/reduce.py): replays of journaled decisions; the child `Ancestry` has
-- the bound on recoveries.
pub mod Ancestry
pub mod Delivering
use llama_agents.Prelude.{ℕ, ◌≡◌, refl, inl, inr, String, Option, some, Option-cases}
use llama_agents.Types.{World, BrokerConfig, InProgressState, RetryDecision, StepWorkerFailed}
use llama_agents.Failure.{
  outcome, retry_delay, retry_attempt, failure_first_attempt_at, total_attempts, handler_of,
  route_or_fail, not_before_of,
}

module _ (step_name : String) (failure : StepWorkerFailed) (this_execution : InProgressState)
    (config : BrokerConfig) where
  -- Where the tick carries its retry decision, what the failure leads to depends on neither the
  -- retry policy, nor its random jitter and the run's id, nor the classes of the program: a replay
  -- takes the branch that the live run took.
  pub outcome-retry_decision :
      (decision : RetryDecision) (w w' : World) (run_id run_id' : Option String)
      (retry_policy retry_policy' : Option ℕ)
      → failure.retry_decision ≡ some decision
      → outcome w run_id step_name failure this_execution config retry_policy
        ≡ outcome w' run_id' step_name failure this_execution config retry_policy'
  unfolding outcome retry_delay retry_attempt failure_first_attempt_at total_attempts handler_of
      route_or_fail not_before_of
  outcome-retry_decision decision w w' run_id run_id' retry_policy retry_policy' journaled =
      elim (Option-cases decision.delay) [
        | inl stopped ↦ rw (journaled, stopped) refl
        | inr (delay, e) ↦ rw (journaled, e) refl
      ]
