-- ===== src/Framed/Ticks.antt =====
-- Every tick (`_reduce_tick` of workflows/runtime/control_loop/reduce.py) keeps a predicate of the
-- state.
use llama_agents.Prelude.{
  ℤ, inl, inr, String, Bool, true, false, Option, none, some, List, [], ◌∷◌, ◌++◌, Option-cases,
  last?, lookup, find, is_some, str_eq, any, ok, raise, Ensures-chain, Ensures-bind,
}
use llama_agents.Types.{
  Event, BrokerState, InProgressState, InternalStepWorkerState, StepWorkerWaiter, StepId,
  TickStepResult, WorkflowTick, World, WorkflowCommand, deepcopy, step_key, indicates_exit,
}
use llama_agents.Effects.{Reduced, Keeps, done, Keeps-▷, Keeps-if, Keeps-prepend, put_worker}
use llama_agents.Streams.{mint_stream_id}
use llama_agents.Classify.{WorkDisposition, is_worker_result}
use llama_agents.StepResult.Threading.{Scope, Progress}
use llama_agents.StepResult.{
  find_in_progress, rerun_for_stale_collect_buffer, has_fanned_out, fan_out_scope,
  resolve_disposition, resolve_work_item_in_stream, drop_finished, finalize, complete_execution,
  process_step_result_tick,
}
use llama_agents.Timers.{
  process_cancel_run_tick, process_publish_event_tick, process_timeout_tick, wake_workers,
  process_wakeup_tick, time_out_waiter, time_out_if_pending, process_waiter_timeout_tick,
}
use llama_agents.Reduce.{with_idle_check, fail_stuck, process_idle_check_tick, reduce_tick}
use llama_agents.Stuck.{check_idle_state, detect_stuck_streams}
use llama_agents.Framed.Interface.{StateInvariant, put-Q, in_worker-Q, deepcopy-Q, get_worker-Keeps}
use llama_agents.Framed.Completing.{apply_step_results-Q}
use llama_agents.Framed.Adding.{process_add_event_tick-Q}

module _ (w : World) (now : ℤ) (Q : BrokerState → Type 0) (inv : StateInvariant w now Q) where
  resolve_disposition-Q :
      (step_name : String) (scope : Scope) (emitted : List Event) (d : WorkDisposition)
      (s : BrokerState)
      → Q s
      → Keeps Q (resolve_disposition w now d step_name scope emitted s)
  unfolding resolve_disposition
  resolve_disposition-Q step_name scope emitted WorkDisposition.fanned_out s q =
      elim (Option-cases scope.fan_out_stream_id) [
        | inl nothing ↦ rw (nothing, resolve_disposition) q
        | inr (stream_id, e) ↦
            rw (e, resolve_disposition) (inv.opened step_name scope emitted stream_id s q)
      ]
  resolve_disposition-Q step_name scope emitted WorkDisposition.completed s q =
      inv.adjusted (last? scope.trigger_stack) _ s q
  resolve_disposition-Q step_name scope emitted WorkDisposition.absorbed s q =
      inv.adjusted (last? scope.trigger_stack) _ s q
  resolve_disposition-Q step_name scope emitted WorkDisposition.still_live s q = q
  resolve_disposition-Q step_name scope emitted WorkDisposition.run_ending s q = q

  finalize-Q :
      (tick : TickStepResult) (acc : Progress) (s : BrokerState) (commands : List WorkflowCommand)
      → Q s
      → Keeps Q (finalize w now tick acc s commands)
  unfolding finalize
  finalize-Q tick acc s commands q = get_worker-Keeps Q (step_key tick.step_id) s _ (λ ws.
      let kept = drop_finished w now tick acc ws in
      Keeps-prepend Q _ _ (
        Keeps-if Q (any indicates_exit commands) (done (put_worker (step_key tick.step_id) kept s))
          _ (λ ends. put-Q w now Q inv (step_key tick.step_id) kept s q)
          (λ goes_on. in_worker-Q w now Q inv (step_key tick.step_id) s _ q)))

  fan_out_scope-Q :
      (s : BrokerState) (step_name : String) (p : InProgressState) (fanned_out : Bool)
      → Q s
      → Q (fan_out_scope w s step_name p fanned_out).0
  unfolding fan_out_scope mint_stream_id
  fan_out_scope-Q s step_name p true q = inv.next_stream s q
  fan_out_scope-Q s step_name p false q = q

  abbrev Reached : BrokerState × List WorkflowCommand → Type 0
  Reached r = Q r.0

  complete_execution-Q :
      (run_id : Option String) (tick : TickStepResult) (p : InProgressState) (s : BrokerState)
      → Q s
      → Keeps Q (complete_execution w now run_id tick p s)
  unfolding complete_execution resolve_work_item_in_stream
  complete_execution-Q run_id tick p s q =
      let (scoped, scope) =
        fan_out_scope w s (step_key tick.step_id) p (any has_fanned_out tick.result) in
      Ensures-chain (λ (acc : Progress). Q acc.state) Reached _ _
        (apply_step_results-Q w now Q inv run_id tick scope (any is_worker_result tick.result)
          tick.result _ (fan_out_scope-Q s (step_key tick.step_id) p _ q))
        (λ acc q'.
          Ensures-chain Reached Reached _ _
            (Ensures-bind Reached _ _
              (λ d. resolve_disposition-Q (step_key tick.step_id) scope _ d acc.state q'))
            (λ (s', commands) q''. finalize-Q tick acc s' (acc.commands ++ commands) q''))

  pub process_step_result_tick-Q :
      (run_id : Option String) (tick : TickStepResult) (s : BrokerState)
      → Q s
      → Keeps Q (process_step_result_tick w now run_id tick s)
  unfolding process_step_result_tick
  process_step_result_tick-Q run_id tick s q =
      let step_name = step_key tick.step_id in
      let q' = deepcopy-Q w now Q inv s q in
      get_worker-Keeps Q step_name (deepcopy s) _ (λ ws.
        Ensures-bind Reached (find_in_progress ws tick.worker_id) _ (λ p.
          elim (Option-cases (rerun_for_stale_collect_buffer tick ws p)) [
            | inl fresh ↦ rw fresh (complete_execution-Q run_id tick p (deepcopy s) q')
            | inr (p', e) ↦ rw e (put-Q w now Q inv step_name _ (deepcopy s) q')
          ]))

  wake_workers-Q :
      (due : ℤ) (names : List String) (s : BrokerState)
      → Q s
      → Keeps Q (wake_workers w now due names s)
  unfolding wake_workers
  wake_workers-Q due [] s q = q
  wake_workers-Q due (name ∷ names) s q =
      get_worker-Keeps Q name s _
        (λ ws. Keeps-▷ Q Q _ _ (in_worker-Q w now Q inv name s _ q) (wake_workers-Q due names))

  time_out_if_pending-Q :
      (step_id : StepId) (waiter_id : String) (ws : InternalStepWorkerState)
      (found : Option StepWorkerWaiter) (s : BrokerState)
      → Q s
      → Keeps Q (time_out_if_pending w now step_id waiter_id ws found s)
  unfolding time_out_if_pending time_out_waiter
  time_out_if_pending-Q step_id waiter_id ws none s q = q
  time_out_if_pending-Q step_id waiter_id ws (some waiter) s q =
      Keeps-if Q (is_some waiter.resolved_event) (done s) _ (λ resolved. q)
        (λ still. in_worker-Q w now Q inv (step_key step_id) s _ q)

  waiter_timeout-Q :
      (step_id : StepId) (waiter_id : String) (s : BrokerState)
      → Q s
      → Keeps Q (process_waiter_timeout_tick w now step_id waiter_id s)
  unfolding process_waiter_timeout_tick
  waiter_timeout-Q step_id waiter_id s q =
      let q' = deepcopy-Q w now Q inv s q in
      elim (Option-cases (lookup (step_key step_id) (deepcopy s).workers)) [
        | inl missing ↦ rw (missing, process_waiter_timeout_tick) q'
        | inr (ws, e) ↦
            rw (e, process_waiter_timeout_tick)
              (time_out_if_pending-Q step_id waiter_id ws
                (find (λ x. str_eq x.waiter_id waiter_id) ws.collected_waiters) (deepcopy s) q')
      ]

  idle_check-Q : (s : BrokerState) → Q s → Keeps Q (process_idle_check_tick s)
  unfolding process_idle_check_tick fail_stuck
  idle_check-Q s q =
      Keeps-if Q (check_idle_state s) _ (done s)
        (λ idle. elim (Option-cases (detect_stuck_streams s)) [
          | inl healthy ↦ rw healthy q
          | inr (stuck, e) ↦ rw e (inv.with_running _ false (deepcopy-Q w now Q inv s q))
        ])
        (λ busy. q)

  with_idle_check-Q : (m : Reduced) → Keeps Q m → Keeps Q (with_idle_check m)
  unfolding with_idle_check
  with_idle_check-Q (ok r) q = q
  with_idle_check-Q (raise e) q = tt

  -- A tick keeps what the changes of single fields, the accounting of open work and the opening of
  -- a stream keep.
  pub reduce_tick-Q :
      (run_id : Option String) (tick : WorkflowTick) (s : BrokerState)
      → Q s
      → Keeps Q (reduce_tick w run_id tick s now)
  unfolding reduce_tick process_cancel_run_tick process_publish_event_tick process_timeout_tick
      process_wakeup_tick
  reduce_tick-Q run_id (WorkflowTick.step_result tick) s q =
      with_idle_check-Q _ (process_step_result_tick-Q run_id tick s q)
  reduce_tick-Q run_id (WorkflowTick.add_event tick) s q =
      with_idle_check-Q _ (process_add_event_tick-Q w now Q inv tick s q)
  reduce_tick-Q run_id WorkflowTick.cancel_run s q =
      with_idle_check-Q (process_cancel_run_tick s) (deepcopy-Q w now Q inv s q)
  reduce_tick-Q run_id WorkflowTick.idle_release s q = q
  reduce_tick-Q run_id (WorkflowTick.publish event) s q =
      with_idle_check-Q (process_publish_event_tick event s) q
  reduce_tick-Q run_id (WorkflowTick.timeout timeout) s q =
      with_idle_check-Q (process_timeout_tick timeout s)
        (inv.cleared _ (inv.with_running _ false (deepcopy-Q w now Q inv s q)))
  reduce_tick-Q run_id (WorkflowTick.waiter_timeout step_id waiter_id) s q =
      with_idle_check-Q _ (waiter_timeout-Q step_id waiter_id s q)
  reduce_tick-Q run_id WorkflowTick.idle_check s q = idle_check-Q s q
  reduce_tick-Q run_id (WorkflowTick.wakeup due) s q =
      with_idle_check-Q (process_wakeup_tick w now due s)
        (wake_workers-Q due _ (deepcopy s) (deepcopy-Q w now Q inv s q))
