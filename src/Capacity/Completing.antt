-- ===== src/Capacity/Completing.antt =====
-- Completing an execution of a step (_process_step_result_tick of
-- workflows/runtime/control_loop/reduce.py) keeps the worker slots.
use llama_agents.Prelude.{
  ℤ, ◌==◌, inl, inr, String, Bool, true, false, Option, List, ◌++◌, Option-cases, if_case, last?,
  any, remove_first, Ensures-chain, Ensures-bind,
}
use llama_agents.Types.{
  Event, BrokerState, InProgressState, InternalStepWorkerState, StepId, TickAddEvent,
  TickStepResult, World, WorkflowCommand, deepcopy, step_key, indicates_exit,
}
use llama_agents.Effects.{
  Keeps, Gives, done, Gives-map, Keeps-▷, Keeps-if, Keeps-Gives, Keeps-prepend, put_worker,
}
use llama_agents.Dispatch.{drain_eligible_queue}
use llama_agents.Streams.{mint_stream_id, adjust_open_work_items, close_collection_stream}
use llama_agents.Classify.{WorkDisposition, is_worker_result}
use llama_agents.StepResult.Threading.{Scope, Progress}
use llama_agents.StepResult.{
  find_in_progress, rerun_for_stale_collect_buffer, has_fanned_out, fan_out_scope, successors,
  open_child_stream, resolve_disposition, resolve_work_item_in_stream, drop_finished, finalize,
  complete_execution, process_step_result_tick,
}
use llama_agents.AddEvent.Delivery.{is_retry, consume_superseded_delayed_attempt}
use llama_agents.Invariant.Local.{
  LocalInvariant, AllWorkers-put, Keeps-get_worker, in_worker-AllWorkers, deepcopy-AllWorkers,
}
use llama_agents.Invariant.Streaming.{
  adjust_open_work_items-AllWorkers, close_collection_stream-AllWorkers,
}
use llama_agents.Capacity.Slots.{IsValid, AllValid, SlotsFit-remove}
use llama_agents.Capacity.Dispatching.{add_or_enqueue_event-IsValid, drain_eligible_queue-IsValid}
use llama_agents.Capacity.Finishing.{
  Sound, set_execution-IsValid, copy_worker-IsValid, apply_step_results-Sound,
}

module _ (w : World) (now : ℤ) where
  superseded-IsValid :
      (tick : TickAddEvent) (ws : InternalStepWorkerState)
      → IsValid ws
      → IsValid (consume_superseded_delayed_attempt tick ws)
  unfolding consume_superseded_delayed_attempt
  superseded-IsValid tick ws v = if_case IsValid (is_retry tick.attempts) _ ws (λ r. v) (λ n. v)

  pub slots : LocalInvariant w now IsValid
  slots = record {
    dispatch = λ event step_id ws v.
        Gives-map _ IsValid _ (λ ws' k. k.0)
          (add_or_enqueue_event-IsValid w now event step_id ws v);
    with_waiters = λ ws waiters v. v;
    with_statics = λ ws events v. v;
    superseded = superseded-IsValid;
    copy = copy_worker-IsValid;
  }

  pub drain-IsValid :
      (step_id : StepId) (ws : InternalStepWorkerState)
      → IsValid ws
      → Gives IsValid (drain_eligible_queue w now step_id ws)
  drain-IsValid step_id ws v =
      Gives-map _ IsValid _ (λ ws' k. k.0) (drain_eligible_queue-IsValid w now step_id ws v)

  adjust :
      (stream_id : Option String) (delta : ℤ) (s : BrokerState)
      → AllValid s
      → Keeps AllValid (adjust_open_work_items w now stream_id delta s)
  adjust stream_id delta s h =
      Keeps-Gives AllValid _
        (adjust_open_work_items-AllWorkers w now IsValid slots stream_id delta s h)

  close :
      (stream_id : String) (s : BrokerState)
      → AllValid s
      → Keeps AllValid (close_collection_stream w now stream_id s)
  close stream_id s h =
      Keeps-Gives AllValid _ (close_collection_stream-AllWorkers w now IsValid slots stream_id s h)

  module _ (step_name : String) (scope : Scope) (emitted : List Event) where
    open_child_stream-AllValid :
        (stream_id : String) (s : BrokerState)
        → AllValid s
        → Keeps AllValid (open_child_stream w now step_name scope emitted stream_id s)
    unfolding open_child_stream
    open_child_stream-AllValid stream_id s h =
        Keeps-▷ AllValid AllValid _ _ (adjust (last? scope.trigger_stack) _ _ h) (λ s' h'.
          Keeps-if AllValid (successors w s emitted == 0)
            (close_collection_stream w now stream_id s') (done s') (λ empty. close stream_id s' h')
            (λ seeded. h'))

    resolve_disposition-AllValid :
        (d : WorkDisposition) (s : BrokerState)
        → AllValid s
        → Keeps AllValid (resolve_disposition w now d step_name scope emitted s)
    unfolding resolve_disposition
    resolve_disposition-AllValid WorkDisposition.fanned_out s h =
        elim (Option-cases scope.fan_out_stream_id) [
          | inl nothing ↦ rw (nothing, resolve_disposition) h
          | inr (stream_id, e) ↦
              rw (e, resolve_disposition) (open_child_stream-AllValid stream_id s h)
        ]
    resolve_disposition-AllValid WorkDisposition.completed s h =
        adjust (last? scope.trigger_stack) _ s h
    resolve_disposition-AllValid WorkDisposition.absorbed s h =
        adjust (last? scope.trigger_stack) _ s h
    resolve_disposition-AllValid WorkDisposition.still_live s h = h
    resolve_disposition-AllValid WorkDisposition.run_ending s h = h

  resolve-AllValid :
      (tick : TickStepResult) (acc : Progress) (scope : Scope)
      → AllValid acc.state
      → Keeps AllValid (resolve_work_item_in_stream w now tick acc scope)
  unfolding resolve_work_item_in_stream
  resolve-AllValid tick acc scope h =
      Ensures-bind (λ (r : BrokerState × List WorkflowCommand). AllValid r.0) _ _
        (λ d. resolve_disposition-AllValid (step_key tick.step_id) scope _ d acc.state h)

  drop_finished-IsValid :
      (tick : TickStepResult) (acc : Progress) (ws : InternalStepWorkerState)
      → IsValid ws
      → IsValid (drop_finished w now tick acc ws)
  unfolding drop_finished
  drop_finished-IsValid tick acc ws v =
      if_case IsValid acc.step_no_longer_in_progress
        (record ws {
          in_progress = remove_first (λ p. p.worker_id == tick.worker_id) ws.in_progress;
        })
        ws (λ over. SlotsFit-remove _ _ ws.in_progress v) (λ rerun. v)

  finalize-AllValid :
      (tick : TickStepResult) (acc : Progress) (s : BrokerState) (commands : List WorkflowCommand)
      → AllValid s
      → Keeps AllValid (finalize w now tick acc s commands)
  unfolding finalize
  finalize-AllValid tick acc s commands h =
      Keeps-get_worker IsValid AllValid (step_key tick.step_id) s _ h (λ ws v.
        let kept = drop_finished w now tick acc ws in
        let v' = drop_finished-IsValid tick acc ws v in
        Keeps-prepend AllValid _ _ (
          Keeps-if AllValid (any indicates_exit commands)
            (done (put_worker (step_key tick.step_id) kept s)) _
            (λ ends. AllWorkers-put IsValid (step_key tick.step_id) kept s v' h)
            (λ goes_on. Keeps-Gives AllValid _ (
              in_worker-AllWorkers IsValid (step_key tick.step_id) s _ h
                (drain-IsValid tick.step_id kept v')))))

  fan_out_scope-AllValid :
      (s : BrokerState) (step_name : String) (p : InProgressState) (fanned_out : Bool)
      → AllValid s
      → AllValid (fan_out_scope w s step_name p fanned_out).0
  unfolding fan_out_scope mint_stream_id
  fan_out_scope-AllValid s step_name p true h = h
  fan_out_scope-AllValid s step_name p false h = h

  abbrev Reached : BrokerState × List WorkflowCommand → Type 0
  Reached r = AllValid r.0

  complete_execution-AllValid :
      (run_id : Option String) (tick : TickStepResult) (p : InProgressState) (s : BrokerState)
      → AllValid s
      → Keeps AllValid (complete_execution w now run_id tick p s)
  unfolding complete_execution
  complete_execution-AllValid run_id tick p s h =
      let (scoped, scope) =
        fan_out_scope w s (step_key tick.step_id) p (any has_fanned_out tick.result) in
      Ensures-chain Sound Reached _ _
        (apply_step_results-Sound w run_id tick scope (any is_worker_result tick.result) tick.result
          _ (record { valid = fan_out_scope-AllValid s (step_key tick.step_id) p _ h }))
        (λ acc sound.
          Ensures-chain Reached Reached _ _ (resolve-AllValid tick acc scope sound.valid)
            (λ (s', commands) h'. finalize-AllValid tick acc s' (acc.commands ++ commands) h'))

  pub process_step_result_tick-AllValid :
      (run_id : Option String) (tick : TickStepResult) (s : BrokerState)
      → AllValid s
      → Keeps AllValid (process_step_result_tick w now run_id tick s)
  unfolding process_step_result_tick
  process_step_result_tick-AllValid run_id tick s h =
      let step_name = step_key tick.step_id in
      let h' = deepcopy-AllWorkers IsValid copy_worker-IsValid s h in
      Keeps-get_worker IsValid AllValid step_name (deepcopy s) _ h' (λ ws v.
        Ensures-bind Reached (find_in_progress ws tick.worker_id) _ (λ p.
          elim (Option-cases (rerun_for_stale_collect_buffer tick ws p)) [
            | inl fresh ↦ rw fresh (complete_execution-AllValid run_id tick p (deepcopy s) h')
            | inr (p', e) ↦ rw e (
                AllWorkers-put IsValid step_name _ (deepcopy s)
                  (set_execution-IsValid p' ws.config.num_workers ws.in_progress v) h')
          ]))
