-- ===== src/Samples/Retries.antt =====
-- A policy of three attempts and a chain of delays, and the theorems on retries at it.
use llama_agents.Prelude.{
  ◌≡◌, refl, pos, leb, true, false, none, some, [], if◌then◌else◌, Ensures, is_some, arith,
}
use llama_agents.Types.{
  Exception, World, attempt_of, EventAttempt, InProgressState, StepWorkerFailed,
}
use llama_agents.Failure.{Outcome, outcome, total_attempts}
use llama_agents.Retrying.Conditions.{Errors, retry_any, no_retries, and_retry, retry_always}
use llama_agents.Retrying.Waits.{
  WaitStrategy, wait_fixed, wait_random, wait_combine, wait_chain, no_waits, and_wait, Random,
}
use llama_agents.Retrying.Stops.{stop_any, stop_never, stop_after_attempt, no_stops, and_stop}
use llama_agents.Retrying.Policy.{RetryPolicy, next}
use llama_agents.Retrying.Chains.{next-wait_chain}
use llama_agents.Retrying.Seeds.{answer_of, next-seeded}
use llama_agents.Retrying.Delays.{IsSane, IsUniform, longest}
use llama_agents.Retrying.Within.{DelayWithin, next-Within}
use llama_agents.Looping.Stamping.{made, stamp_failure-outcome}
use llama_agents.Looping.Workers.{stamp_failure}
use llama_agents.Samples.{world, item, execution_of, broker_config, work_state}
use llama_agents.Types.{InternalStepWorkerState, root}
use llama_agents.Dispatch.{execution}

abbrev errors : Errors
errors = record {
  is_instance = λ e c. true;
  text = λ e. "please retry";
  causes = λ e. [];
  found = λ p text. false;
}

abbrev random : Random
random = record { seeded = λ s a b. a; drawn = λ n a b. b }

abbrev jittered : WaitStrategy
jittered =
    wait_combine (and_wait (wait_fixed (pos 5)) (and_wait (wait_random (pos 1) (pos 3)) no_waits))

abbrev policy : RetryPolicy
policy = record {
  retry = some (retry_any (and_retry retry_always no_retries));
  wait = jittered;
  stop = stop_any (and_stop stop_never (and_stop (stop_after_attempt 3) no_stops));
}

abbrev error : Exception
error = Exception.step_exception 0

-- The program whose policy number 0 waits for five units, twice.
abbrev steady : RetryPolicy
steady = record { retry = none; wait = wait_fixed (pos 5); stop = stop_after_attempt 3 }

abbrev retrying : World
retrying = record world {
  next_delay = λ id elapsed attempts e seed. if leb 3 attempts then none else some (pos 5);
}

abbrev failing : StepWorkerFailed
failing = record {
  exception = error;
  failed_at = pos 30;
  retry_decision = none;
  first_attempt_at = none;
}

-- The execution of the item, and the one after its first failure.
abbrev again_of : Outcome → EventAttempt
again_of (Outcome.retry a) = a
again_of _ = attempt_of (item 1)

abbrev idle : InternalStepWorkerState
idle = record work_state { queue = []; in_progress = [] }

abbrev begun_execution : EventAttempt → InProgressState
begun_execution a = execution retrying (pos 20) (root "work") a 0 idle

abbrev first_execution : InProgressState
first_execution = begun_execution (attempt_of (item 1))

abbrev retried : Outcome
retried = outcome retrying none "work" failing first_execution broker_config (some 0)

abbrev second : InProgressState
second = begun_execution (again_of retried)

random-IsUniform : IsUniform random
random-IsUniform = record {
  seeded = λ s a b h. (ground arith, h);
  drawn = λ n a b h. (h, ground arith);
}

next-Within_example :
    Ensures
      (λ r. DelayWithin (longest policy.wait) r.0)
      (next errors random policy (pos 12) 1 error none 4)
unfolding IsSane
next-Within_example =
    next-Within errors random policy (pos 12) 1 error none 4 random-IsUniform
      (refl, ((refl, refl), tt))

next-wait_chain_example :
    next errors random
      (record policy {
        wait = wait_chain (and_wait (wait_fixed (pos 1)) (and_wait (wait_fixed (pos 2)) no_waits));
      })
      (pos 0)
      (total_attempts world none "work" failing (execution_of (item 1) 0))
      error
      none
      0
    ≡ next errors random
        (record policy {
          wait =
              wait_chain (and_wait (wait_fixed (pos 9)) (and_wait (wait_fixed (pos 2)) no_waits));
        })
        (pos 0)
        (total_attempts world none "work" failing (execution_of (item 1) 0))
        error
        none
        0
next-wait_chain_example =
    next-wait_chain world none "work" failing (execution_of (item 1) 0) errors random policy
      (wait_fixed (pos 1)) (wait_fixed (pos 9)) (wait_fixed (pos 2)) no_waits (pos 0) error none 0

next-seeded_example :
    answer_of (
      next errors
        (record { seeded = λ s a b. b; drawn = λ n a b. a })
        policy
        (pos 0)
        1
        error
        (some 42)
        3)
    ≡ answer_of (
        next errors
          (record { seeded = λ s a b. b; drawn = λ n a b. b })
          policy
          (pos 0)
          1
          error
          (some 42)
          8)
next-seeded_example =
    next-seeded errors (λ s a b. b) (λ n a b. a) (λ n a b. b) policy (pos 0) 1 error 42 3 8

stamp_failure-outcome_example :
    (is_some
        (stamp_failure retrying none
          (some 0)
          "work"
          (execution_of (item 1) 0)
          (made error (pos 30) none)).retry_decision
      ≡ true)
    × (outcome retrying none "work"
          (stamp_failure retrying none
            (some 0)
            "work"
            (execution_of (item 1) 0)
            (made error (pos 30) none))
          (execution_of (item 1) 0)
          broker_config
          (some 0)
        ≡ outcome retrying none "work"
            (made error (pos 30) none)
            (execution_of (item 1) 0)
            broker_config
            (some 0))
stamp_failure-outcome_example =
    stamp_failure-outcome retrying none (some 0) "work" (execution_of (item 1) 0) error (pos 30)
      none broker_config
