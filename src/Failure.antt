-- ===== src/Failure.antt =====
-- A failed execution: `_decide_retry_delay` and `_schedule_retry_or_route_failure` of
-- workflows/runtime/control_loop/reduce.py.
use Prim.Native.String.{◌++◌ as text_append}
use llama_agents.Prelude.{
  ℕ, ◌+◌, ◌%◌, ◌^◌, ℤ, pos, ◌+ℤ◌, ◌-ℤ◌, ltb_ℤ, leb, String, Option, none, some, List, [], ◌∷◌,
  get_or, if◌then◌else◌, lookup, assign, decimal, parse_hex,
}
use llama_agents.Types.{
  Event, Exception, step_failed, workflow_failed, World, BrokerConfig, CatchErrorHandler,
  EventAttempt, InProgressState, StepWorkerFailed, StepId, root, WorkflowCommand, queue_event,
  publish_event, fail_workflow, schedule_wakeup,
}

-- The seed of the jitter: the low 32 bits of a digest of run, step and number of failures.
unfoldable pub jitter_seed : World → Option String → String → ℕ → Option ℕ
jitter_seed w none step_name failures = none
jitter_seed w (some run_id) step_name failures =
    let text =
      text_append run_id
        (text_append ":" (text_append step_name (text_append ":" (decimal failures)))) in
    some (parse_hex (w.sha256_hex text) % 2 ^ 32)

unfoldable pub decide_retry_delay :
    World → Option ℕ → ℤ → ℕ → Exception → Option String → String → Option ℤ
unfolding jitter_seed
decide_retry_delay w none elapsed_time failures exception run_id step_name = none
decide_retry_delay w (some policy) elapsed_time failures exception run_id step_name =
    w.next_delay policy elapsed_time failures exception
      (if w.accepts_seed policy then some (jitter_seed w run_id step_name failures) else none)

-- What a failure leads to.
pub data Outcome : Type 0 where
  retry : EventAttempt → Outcome
  recover : CatchErrorHandler → (count : ℕ) → Outcome
  give_up : Outcome

module _ (w : World) (run_id : Option String) (step_name : String) (failure : StepWorkerFailed)
    (this_execution : InProgressState) where
  unfoldable pub failure_first_attempt_at : ℤ
  failure_first_attempt_at = get_or failure.first_attempt_at this_execution.first_attempt_at

  unfoldable pub total_attempts : ℕ
  total_attempts = this_execution.attempts + 1

  -- The journaled decision, or the policy's for a tick without one.
  unfoldable pub retry_delay : Option ℕ → Option ℤ
  unfolding decide_retry_delay failure_first_attempt_at total_attempts
  retry_delay retry_policy = elim failure.retry_decision [
    | none ↦
        decide_retry_delay w retry_policy (failure.failed_at -ℤ failure_first_attempt_at)
          total_attempts failure.exception run_id step_name
    | some decision ↦ decision.delay
  ]

  unfoldable pub not_before_of : ℤ → Option ℤ
  not_before_of delay = if ltb_ℤ (pos 0) delay then some (failure.failed_at +ℤ delay) else none

  unfoldable pub retry_attempt : ℤ → EventAttempt
  unfolding failure_first_attempt_at total_attempts not_before_of
  retry_attempt delay = record {
    event = this_execution.event;
    bound_events = this_execution.bound_events;
    attempts = some total_attempts;
    first_attempt_at = some failure_first_attempt_at;
    last_exception = some failure.exception;
    last_failed_at = some failure.failed_at;
    recovery_counts = this_execution.recovery_counts;
    not_before = not_before_of delay;
    scope_path = this_execution.scope_path;
    collection_release_payload = this_execution.shared_state.collection_release_payload;
    work_item_id = this_execution.work_item_id;
  }

  -- The handler that owns the step, if it is registered.
  unfoldable pub handler_of : BrokerConfig → Option CatchErrorHandler
  handler_of config = elim (lookup step_name config.handler_for_step) [
    | none ↦ none
    | some handler_name ↦ lookup handler_name config.catch_error_handlers
  ]

  unfoldable pub route_or_fail : Option CatchErrorHandler → Outcome
  route_or_fail none = give_up
  route_or_fail (some handler) =
      let new_count = get_or (lookup handler.step_name this_execution.recovery_counts) 0 + 1 in
      if leb new_count handler.max_recoveries then recover handler new_count else give_up

  unfoldable pub outcome : BrokerConfig → Option ℕ → Outcome
  unfolding retry_delay retry_attempt handler_of route_or_fail
  outcome config retry_policy = elim (retry_delay retry_policy) [
    | none ↦ route_or_fail (handler_of config)
    | some delay ↦ retry (retry_attempt delay)
  ]

  unfoldable pub step_failed_event : Event → Event
  unfolding total_attempts failure_first_attempt_at
  step_failed_event input_event =
      step_failed step_name input_event failure.exception total_attempts
        (failure.failed_at -ℤ failure_first_attempt_at) failure.failed_at

  unfoldable pub queue_catch_error_event : Event → CatchErrorHandler → ℕ → WorkflowCommand
  unfolding step_failed_event
  queue_catch_error_event input_event handler count =
      queue_event (step_failed_event input_event) (some (root handler.step_name))
        (assign handler.step_name count this_execution.recovery_counts) this_execution.scope_path

  unfoldable pub give_up_commands : StepId → List WorkflowCommand
  unfolding total_attempts failure_first_attempt_at
  give_up_commands step_id =
      publish_event (
        workflow_failed step_name failure.exception (some total_attempts)
          (some (failure.failed_at -ℤ failure_first_attempt_at)))
      ∷ fail_workflow step_id failure.exception
      ∷ []

-- The wakeup of a delayed attempt.
unfoldable pub wakeups : EventAttempt → List WorkflowCommand
wakeups attempt = elim attempt.not_before [
  | none ↦ []
  | some at_time ↦ schedule_wakeup at_time ∷ []
]
