-- ===== src/Retrying/Stops.antt =====
-- The stop conditions of workflows/retry_policy.py: when to give up.
use llama_agents.Prelude.{ℕ, ℤ, ◌+ℤ◌, leb, leb_ℤ, Bool, true, false, ◌&&◌, ◌||◌}

mutual
  pub data StopCondition : Type 0 where
    stop_after_attempt : (max_attempt_number : ℕ) → StopCondition
    stop_after_delay : (max_delay : ℤ) → StopCondition
    stop_before_delay : (max_delay : ℤ) → StopCondition
    stop_any : StopConditions → StopCondition
    stop_all : StopConditions → StopCondition
    stop_never : StopCondition

  -- The arguments `*stops`.
  pub data StopConditions : Type 0 where
    no_stops : StopConditions
    and_stop : StopCondition → StopConditions → StopConditions

-- The operators `|` and `&`.
unfoldable pub or_stop : StopCondition → StopCondition → StopCondition
or_stop a b = stop_any (and_stop a (and_stop b no_stops))

unfoldable pub both_stop : StopCondition → StopCondition → StopCondition
both_stop a b = stop_all (and_stop a (and_stop b no_stops))

module _ (attempts : ℕ) (elapsed_time upcoming_sleep : ℤ) where
  -- `condition(attempts, elapsed_time, upcoming_sleep=upcoming_sleep)`
  unfoldable mutual
    pub should_stop : StopCondition → Bool
    should_stop (stop_after_attempt n) = leb n attempts
    should_stop (stop_after_delay limit) = leb_ℤ limit elapsed_time
    should_stop (stop_before_delay limit) = leb_ℤ limit (elapsed_time +ℤ upcoming_sleep)
    should_stop (stop_any stops) = any_stop stops
    should_stop (stop_all stops) = all_stop stops
    should_stop stop_never = false

    pub any_stop : StopConditions → Bool
    any_stop no_stops = false
    any_stop (and_stop s rest) = should_stop s || any_stop rest

    pub all_stop : StopConditions → Bool
    all_stop no_stops = true
    all_stop (and_stop s rest) = should_stop s && all_stop rest
