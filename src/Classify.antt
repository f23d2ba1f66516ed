-- ===== src/Classify.antt =====
-- What became of a finished execution's work item (`WorkDisposition` and `_classify_work_item` of
-- workflows/runtime/control_loop/streams.py).
use llama_agents.Prelude.{
  Bool, true, false, ◌&&◌, List, any, every, if◌then◌else◌, Result, ok, raise,
}
use llama_agents.Types.{
  StepFunctionResult, TickStepResult, WorkflowCommand, indicates_exit, step_key, Error,
  runtime_error, unclassified,
}

pub data WorkDisposition : Type 0 where
  completed fanned_out still_live absorbed run_ending : WorkDisposition

unfoldable pub is_worker_result : StepFunctionResult → Bool
is_worker_result (StepFunctionResult.worker_result _ _) = true
is_worker_result _ = false

unfoldable pub is_worker_failed : StepFunctionResult → Bool
is_worker_failed (StepFunctionResult.worker_failed _) = true
is_worker_failed _ = false

unfoldable pub is_add_waiter : StepFunctionResult → Bool
is_add_waiter (StepFunctionResult.add_waiter _) = true
is_add_waiter _ = false

unfoldable pub is_add_collected : StepFunctionResult → Bool
is_add_collected (StepFunctionResult.add_collected_event _ _) = true
is_add_collected _ = false

unfoldable pub classify_work_item :
    TickStepResult
    → List WorkflowCommand
    → (rerun_scheduled redelivery_scheduled did_fan_out : Bool) → Result Error WorkDisposition
unfolding is_worker_result is_worker_failed is_add_waiter is_add_collected indicates_exit
classify_work_item tick commands rerun_scheduled redelivery_scheduled did_fan_out =
    let did_complete_step = any is_worker_result tick.result in
    let step_failed = any is_worker_failed tick.result in
    let added_waiter = any is_add_waiter tick.result in
    if any indicates_exit commands
    then ok run_ending
    else if rerun_scheduled
    then ok still_live
    else if step_failed && redelivery_scheduled
    then ok still_live
    else if did_complete_step
    then ok (if did_fan_out then fanned_out else completed)
    else if added_waiter
    then ok still_live
    else if every is_add_collected tick.result
    then ok absorbed
    else raise (runtime_error (unclassified (step_key tick.step_id)))
