-- ===== src/Retrying/Chains.antt =====
-- `wait_chain` of workflows/retry_policy.py as the control loop calls it, with the number of
-- failures so far (`total_attempts` of workflows/runtime/control_loop/reduce.py).
use llama_agents.Prelude.{ℕ, suc, ◌+◌, ◌≡◌, refl, ap, ℤ, String, Option, arith}
use llama_agents.Types.{Exception, World, InProgressState, StepWorkerFailed}
use llama_agents.Failure.{total_attempts}
use llama_agents.Retrying.Conditions.{Errors}
use llama_agents.Retrying.Waits.{
  WaitStrategy, wait_chain, WaitStrategies, and_wait, Random, chain_index, count_waits, wait_for,
  wait_at,
}
use llama_agents.Retrying.Policy.{RetryPolicy, next}

chain_index-suc :
    (k : ℕ) (a b : WaitStrategy) (rest : WaitStrategies)
    → chain_index (k + 1) (and_wait a (and_wait b rest)) ≡ suc (chain_index k (and_wait b rest))
unfolding chain_index count_waits
chain_index-suc k a b rest = ground arith

-- After the first failure, a chain of two strategies or more is read from the second on.
wait_for-tail :
    (random : Random) (k : ℕ) (seed : Option ℕ) (a b : WaitStrategy) (rest : WaitStrategies)
    (position : ℕ)
    → wait_for random (k + 1) seed (wait_chain (and_wait a (and_wait b rest))) position
      ≡ wait_at random (k + 1) seed (and_wait b rest) (chain_index k (and_wait b rest)) position
unfolding wait_for
wait_for-tail random k seed a b rest position =
    ap (λ i. wait_at random (k + 1) seed (and_wait a (and_wait b rest)) i position)
      (chain_index-suc k a b rest)

-- In a chain of two strategies or more, the first one decides nothing: the control loop counts
-- failures from one, so that whatever the first strategy is, every answer of the policy is the same.
pub next-wait_chain :
    (w : World) (run_id : Option String) (step_name : String) (failure : StepWorkerFailed)
    (p : InProgressState) (errors : Errors) (random : Random) (policy : RetryPolicy)
    (a c b : WaitStrategy) (rest : WaitStrategies) (elapsed_time : ℤ) (error : Exception)
    (seed : Option ℕ) (position : ℕ)
    → next errors random
        (record policy { wait = wait_chain (and_wait a (and_wait b rest)) })
        elapsed_time
        (total_attempts w run_id step_name failure p)
        error
        seed
        position
      ≡ next errors random
          (record policy { wait = wait_chain (and_wait c (and_wait b rest)) })
          elapsed_time
          (total_attempts w run_id step_name failure p)
          error
          seed
          position
unfolding next total_attempts
next-wait_chain w run_id step_name failure p errors random policy a c b rest elapsed_time error seed
      position =
    rw
      (
        wait_for-tail random p.attempts seed a b rest position,
        wait_for-tail random p.attempts seed c b rest position,
      )
      refl
