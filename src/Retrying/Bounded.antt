-- ===== src/Retrying/Bounded.antt =====
-- The executions that the control loop makes of a failing step
-- (`_schedule_retry_or_route_failure` of workflows/runtime/control_loop/reduce.py) under a policy
-- of workflows/retry_policy.py.
use llama_agents.Prelude.{
  ℕ, suc, ◌+◌, ◌≡◌, ◌⊎◌, ℤ, String, Option, none, some, get_or, if◌then◌else◌, ok,
}
use llama_agents.Types.{
  Exception, World, BrokerConfig, EventAttempt, InProgressState, StepWorkerFailed,
}
use llama_agents.Failure.{Outcome, outcome, jitter_seed}
use llama_agents.Looping.Workers.{stamp_failure}
use llama_agents.Reduce.{rewound_attempt}
use llama_agents.Executing.{Runs, IsQueuedAs}
use llama_agents.Retrying.Conditions.{Errors}
use llama_agents.Retrying.Waits.{Random}
use llama_agents.Retrying.Policy.{RetryPolicy, next}

abbrev pub flat : Option (Option ℕ) → Option ℕ
flat none = none
flat (some seed) = seed

-- The program's policy `id` is `policy`: whatever `next` of it is asked, it answers, after some
-- draws of the shared generator.
abbrev pub Implements : World → ℕ → Errors → Random → RetryPolicy → Type 0
Implements w id errors random policy =
    (elapsed_time : ℤ) (attempts : ℕ) (error : Exception) (seed : Option (Option ℕ))
    → (before : ℕ) × (after : ℕ) × (next errors random policy elapsed_time attempts error
          (flat seed) before
        ≡ ok (w.next_delay id elapsed_time attempts error seed, after))

module _ (w : World) (run_id : Option String) (step_name : String) (config : BrokerConfig)
    (id : ℕ) where
  -- What the reducer is told of a failure: what the step function made of it, or that with the
  -- verdict that the runner stamped on it.
  abbrev pub IsReported : InProgressState → StepWorkerFailed → StepWorkerFailed → Type 0
  IsReported p made_of failure =
      (made_of.retry_decision ≡ none)
      × ((failure ≡ made_of) ⊎ (failure ≡ stamp_failure w run_id (some id) step_name p made_of))

  -- The executions of one work item after `k` retries: the first has an attempt that none was before;
  -- a failure that is answered with a retry leads to an execution of the retried attempt, which may
  -- have been woken; and a run that is resumed executes the attempt of an interrupted execution.
  pub data Retried : InProgressState → ℕ → Type 0 where
    first :
        (now : ℤ) (a : EventAttempt) (p : InProgressState)
        → get_or a.attempts 0 ≡ 0
        → Runs w now a p
        → Retried p 0
    again :
        (now : ℤ) (p q : InProgressState) (k : ℕ) (made_of failure : StepWorkerFailed)
        (a b : EventAttempt)
        → Retried p k
        → IsReported p made_of failure
        → outcome w run_id step_name failure p config (some id) ≡ Outcome.retry a
        → IsQueuedAs a b
        → Runs w now b q
        → Retried q (suc k)
    resumed :
        (now : ℤ) (p q : InProgressState) (k : ℕ)
        → Retried p k
        → Runs w now (rewound_attempt p) q
        → Retried q k

  abbrev seed_of : InProgressState → Option (Option ℕ)
  seed_of p =
      if w.accepts_seed id then some (jitter_seed w run_id step_name (p.attempts + 1)) else none

  -- The policy was asked about the failure, and answered with a delay.
  abbrev Asked : InProgressState → StepWorkerFailed → ℤ → Type 0
  Asked p failure delay =
      (elapsed : ℤ) × (w.next_delay id elapsed (p.attempts + 1) failure.exception (seed_of p)
        ≡ some delay)
