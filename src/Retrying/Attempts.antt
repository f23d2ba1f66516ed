-- ===== src/Retrying/Attempts.antt =====
-- A bound on attempts: stop conditions of workflows/retry_policy.py that give up at a number of
-- attempts, and the executions that the control loop then makes of a failing step.
use llama_agents.Prelude.{
  ℕ, ◌≤◌, ◌≡◌, refl, ℤ, leb, Bool, true, false, ◌&&◌, ◌||◌, Option, none, some, arith,
  if◌then◌else◌, if_case, Result, ok, raise, ◌>>=◌,
}
use llama_agents.Types.{Exception}
use llama_agents.Retrying.Conditions.{Errors}
use llama_agents.Retrying.Waits.{Random, wait_for, WaitError, Waited}
use llama_agents.Retrying.Stops.{
  StopCondition, stop_after_attempt, stop_after_delay, stop_before_delay, stop_any, stop_all,
  stop_never, StopConditions, no_stops, and_stop, should_stop, any_stop, all_stop,
}
use llama_agents.Retrying.Policy.{RetryPolicy, next, wants_retry}

abbrev least : Option ℕ → Option ℕ → Option ℕ
least none b = b
least (some m) none = some m
least (some m) (some n) = some (if leb m n then m else n)

abbrev greatest : Option ℕ → Option ℕ → Option ℕ
greatest none b = none
greatest (some m) none = none
greatest (some m) (some n) = some (if leb m n then n else m)

-- The number of attempts at which a condition stops for sure, if it has one.
unfoldable mutual
  pub attempt_limit : StopCondition → Option ℕ
  attempt_limit (stop_after_attempt n) = some n
  attempt_limit (stop_after_delay d) = none
  attempt_limit (stop_before_delay d) = none
  attempt_limit (stop_any stops) = least_limit stops
  attempt_limit (stop_all stops) = greatest_limit stops
  attempt_limit stop_never = none

  least_limit : StopConditions → Option ℕ
  least_limit no_stops = none
  least_limit (and_stop s rest) = least (attempt_limit s) (least_limit rest)

  greatest_limit : StopConditions → Option ℕ
  greatest_limit no_stops = some 0
  greatest_limit (and_stop s rest) = greatest (attempt_limit s) (greatest_limit rest)

abbrev reached : Option ℕ → ℕ → Bool
reached none k = false
reached (some n) k = leb n k

reached-least :
    (a b : Option ℕ) (k : ℕ) (p q : Bool)
    → (reached a k ≡ true → p ≡ true)
    → (reached b k ≡ true → q ≡ true)
    → reached (least a b) k ≡ true
    → (p || q) ≡ true
reached-least none b k true q f g h = refl
reached-least none b k false q f g h = g h
reached-least (some m) none k p q f g h = rw (f h) refl
reached-least (some m) (some n) k true q f g h = refl
reached-least (some m) (some n) k false q f g h = ground arith

reached-greatest :
    (a b : Option ℕ) (k : ℕ) (p q : Bool)
    → (reached a k ≡ true → p ≡ true)
    → (reached b k ≡ true → q ≡ true)
    → reached (greatest a b) k ≡ true
    → (p && q) ≡ true
reached-greatest none b k p q f g h = ground arith
reached-greatest (some m) none k p q f g h = ground arith
reached-greatest (some m) (some n) k true q f g h = ground arith
reached-greatest (some m) (some n) k false q f g h = ground arith

module _ (attempts : ℕ) (elapsed_time upcoming_sleep : ℤ) where
  mutual
    unfolding attempt_limit least_limit greatest_limit should_stop any_stop all_stop

    limit-stops :
        (s : StopCondition)
        → reached (attempt_limit s) attempts ≡ true
        → should_stop attempts elapsed_time upcoming_sleep s ≡ true
    limit-stops (stop_after_attempt n) h = h
    limit-stops (stop_after_delay d) h = ground arith
    limit-stops (stop_before_delay d) h = ground arith
    limit-stops (stop_any stops) h = any-stops stops h
    limit-stops (stop_all stops) h = all-stops stops h
    limit-stops stop_never h = h

    any-stops :
        (s : StopConditions)
        → reached (least_limit s) attempts ≡ true
        → any_stop attempts elapsed_time upcoming_sleep s ≡ true
    any-stops no_stops h = h
    any-stops (and_stop s rest) h =
        reached-least (attempt_limit s) (least_limit rest) attempts _ _ (limit-stops s)
          (any-stops rest) h

    all-stops :
        (s : StopConditions)
        → reached (greatest_limit s) attempts ≡ true
        → all_stop attempts elapsed_time upcoming_sleep s ≡ true
    all-stops no_stops h = refl
    all-stops (and_stop s rest) h =
        reached-greatest (attempt_limit s) (greatest_limit rest) attempts _ _ (limit-stops s)
          (all-stops rest) h

-- Whether an answer of `next` is a delay.
abbrev pub Delays : Result WaitError (Option ℤ × ℕ) → Type 0
Delays (ok (some d, n)) = Unit
Delays (ok (none, n)) = ⊥
Delays (raise e) = ⊥

module _ (errors : Errors) (random : Random) (policy : RetryPolicy) (attempts n : ℕ)
    (limited : attempt_limit policy.stop ≡ some n) (beyond : n ≤ attempts) where
  stops_anyway :
      (elapsed_time : ℤ) (waited : Waited)
      → Delays (
          waited >>= λ r.
          ok ((if should_stop attempts elapsed_time r.0 policy.stop then none else some r.0), r.1))
      → ⊥
  stops_anyway elapsed_time (raise e) h = h
  stops_anyway elapsed_time (ok (delay, m)) h =
      (rw (limit-stops attempts elapsed_time delay policy.stop (rw limited (ground arith))) at h)

  pub no_delay :
      (elapsed_time : ℤ) (error : Exception) (seed : Option ℕ) (position : ℕ)
      → Delays (next errors random policy elapsed_time attempts error seed position)
      → ⊥
  unfolding next
  no_delay elapsed_time error seed position =
      if_case (λ r. Delays r → ⊥) (wants_retry errors policy.retry error) _ _
        (λ wanted. stops_anyway elapsed_time (wait_for random attempts seed policy.wait position))
        (λ unwanted h. h)
