-- ===== src/Looping/Workers.antt =====
-- `run_worker` and `_stamp_retry_decisions` of workflows/runtime/control_loop/runner.py: the tick that
-- a worker's task hands to the loop.
use llama_agents.Prelude.{
  ℕ, ◌+◌, ◌==◌, ℤ, ◌-ℤ◌, String, Option, none, some, List, [], ◌∷◌, map, find, lookup,
}
use llama_agents.Types.{
  BrokerState, InProgressState, Exception, StepId, step_key, StepFunctionResult, worker_failed,
  StepWorkerFailed, TickStepResult, World,
}
use llama_agents.Failure.{decide_retry_delay}
use llama_agents.Looping.Runner.{PendingWorker}

-- How the step function ends: it returns its results, or it raises.
pub data Ran : Type 0 where
  returned : List StepFunctionResult → Ran
  raised : Exception → Ran

-- `next((w for w in in_progress if w.worker_id == id), None)`
unfoldable pub find_execution : BrokerState → StepId → ℕ → Option InProgressState
find_execution state step_id worker_id = elim (lookup (step_key step_id) state.workers) [
  | none ↦ none
  | some ws ↦ find (λ p. p.worker_id == worker_id) ws.in_progress
]

unfoldable pub policy_of : BrokerState → StepId → Option ℕ
policy_of state step_id = elim (lookup (step_key step_id) state.workers) [
  | none ↦ none
  | some ws ↦ ws.config.retry_policy
]

unfoldable pub failure_of : Exception → ℤ → StepWorkerFailed
failure_of exception failed_at = record {
  exception = exception;
  failed_at = failed_at;
  retry_decision = none;
  first_attempt_at = none;
}

module _ (w : World) (run_id : Option String) where
  -- The verdict of the policy on a failure, at the time at which its tick is made.
  unfoldable pub stamp_failure :
      Option ℕ → String → InProgressState → StepWorkerFailed → StepWorkerFailed
  stamp_failure policy step_name worker failure = elim failure.retry_decision [
    | some decision ↦ failure
    | none ↦ record failure {
      retry_decision = some (record {
        delay =
            decide_retry_delay w policy (failure.failed_at -ℤ worker.first_attempt_at)
              (worker.attempts + 1) failure.exception run_id step_name;
      });
      first_attempt_at = some worker.first_attempt_at;
    }
  ]

  unfoldable pub stamp_result :
      Option ℕ → String → InProgressState → StepFunctionResult → StepFunctionResult
  unfolding stamp_failure
  stamp_result policy step_name worker (worker_failed failure) =
      worker_failed (stamp_failure policy step_name worker failure)
  stamp_result policy step_name worker result = result

  unfoldable pub stamp_retry_decisions :
      BrokerState
      → StepId
      → Option InProgressState
      → List StepFunctionResult
      → List StepFunctionResult
  unfolding stamp_result policy_of
  stamp_retry_decisions state step_id none results = results
  stamp_retry_decisions state step_id (some worker) results =
      map (stamp_result (policy_of state step_id) (step_key step_id) worker) results

  -- `_run_worker`: the tick of a worker that was started in one state and ends in another.
  -- `missing` is the exception that is raised
  -- where no execution has the worker's id.
  unfoldable pub run_worker_task :
      (at_start at_end : BrokerState)
      → PendingWorker
      → (missing : Exception) → Ran
      → (now : ℤ) → TickStepResult
  unfolding find_execution failure_of stamp_retry_decisions
  run_worker_task at_start at_end command missing ran now = record {
    step_id = command.step_id;
    worker_id = command.worker_id;
    event = command.event;
    result = elim (find_execution at_start command.step_id command.worker_id) [
      | none ↦ worker_failed (failure_of missing now) ∷ []
      | some worker ↦
          stamp_retry_decisions at_end command.step_id (some worker) (results_of ran now)
    ];
  }
    where
      results_of : Ran → ℤ → List StepFunctionResult
      results_of (returned results) now = results
      results_of (raised exception) now = worker_failed (failure_of exception now) ∷ []
