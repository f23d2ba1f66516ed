-- ===== src/Retrying/Policy.antt =====
-- `_ComposableRetryPolicy` of workflows/retry_policy.py, and its deprecated constructors.
use llama_agents.Prelude.{ℕ, ℤ, Bool, true, Option, none, some, if◌then◌else◌, Result, ok, ◌>>=◌}
use llama_agents.Types.{Exception}
use llama_agents.Retrying.Conditions.{Errors, RetryCondition, should_retry}
use llama_agents.Retrying.Waits.{
  Ratio, Cap, WaitStrategy, wait_fixed, wait_exponential, wait_random_exponential, Random,
  WaitError, wait_for,
}
use llama_agents.Retrying.Stops.{StopCondition, stop_after_attempt, should_stop}

pub record RetryPolicy : Type 0 where
  pub retry : Option RetryCondition
  pub wait : WaitStrategy
  pub stop : StopCondition

-- `retry_policy`, where only the condition has no value by default that is read here.
unfoldable pub retry_policy : Option RetryCondition → WaitStrategy → StopCondition → RetryPolicy
retry_policy retry wait stop = record { retry = retry; wait = wait; stop = stop }

-- `ConstantDelayRetryPolicy` and `ExponentialBackoffRetryPolicy`
unfoldable pub constant_delay : (maximum_attempts : ℕ) (delay : ℤ) → RetryPolicy
constant_delay maximum_attempts delay = record {
  retry = none;
  wait = wait_fixed delay;
  stop = stop_after_attempt maximum_attempts;
}

unfoldable pub exponential_backoff : ℕ → ℤ → Ratio → Cap → (jitter : Bool) → RetryPolicy
exponential_backoff maximum_attempts initial_delay multiplier max_delay jitter = record {
  retry = none;
  wait =
      if jitter
      then wait_random_exponential initial_delay multiplier max_delay (ℤ.pos 0)
      else wait_exponential initial_delay multiplier max_delay (ℤ.pos 0);
  stop = stop_after_attempt maximum_attempts;
}

module _ (errors : Errors) where
  unfoldable pub wants_retry : Option RetryCondition → Exception → Bool
  wants_retry none error = true
  wants_retry (some condition) error = should_retry errors condition error

module _ (errors : Errors) (random : Random) where
  -- `policy.next(elapsed_time, attempts, error, seed=seed)`, the shared generator after `position`
  -- draws
  unfoldable pub next :
      RetryPolicy → ℤ → ℕ → Exception → Option ℕ → ℕ → Result WaitError (Option ℤ × ℕ)
  unfolding wants_retry
  next policy elapsed_time attempts error seed position =
      if wants_retry errors policy.retry error
      then (do
        waited ← wait_for random attempts seed policy.wait position
        ok (
          (if should_stop attempts elapsed_time waited.0 policy.stop then none else some waited.0),
          waited.1,
        ))
      else ok (none, position)
