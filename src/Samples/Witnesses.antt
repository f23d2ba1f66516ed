-- ===== src/Samples/Witnesses.antt =====
-- The theorems at concrete inputs, on the workflow of the parent module.
use llama_agents.Start.{from_workflow}
use llama_agents.Prelude.{last?, ◌↔◌, select, raise, ok, assign}
use llama_agents.Effects.{Reduced, in_worker}
use llama_agents.Types.{BrokerState, WorkflowCommand, issubclass, deepcopy}
use llama_agents.Running.{started, ticked, from_workflow-Reaches}
use llama_agents.Samples.{flow, arrival}
use llama_agents.Prelude.{map, any}
use llama_agents.AddEvent.Waiters.{resolve_from}
use llama_agents.StepResult.Apply.{apply_add_collected}
use llama_agents.Resolving.{matches, resolved, resolve_from-resolved}
use llama_agents.Rerunning.{IsSerial, apply_add_collected-IsSerial}
use llama_agents.Samples.{waiter, waiting_state, progress, work_tick}
use llama_agents.Prelude.{
  pos, ◌≡◌, refl, false, none, some, List, [], ◌∷◌, Ensures, Returns, length, select, values,
  lookup, ℕ_discrete,
}
use llama_agents.Types.{EventAttempt, attempt_of, root, class_of, same_class, Class-discrete}
use llama_agents.Effects.{Keeps, Gives}
use llama_agents.Dispatch.{add_or_enqueue_event, drain_eligible_queue}
use llama_agents.Streams.{take_threshold, count_accepting_steps}
use llama_agents.StaticCollect.{select_static_collect_batch, bind_batch}
use llama_agents.Failure.{Outcome, outcome}
use llama_agents.Stuck.{detect_stuck_streams}
use llama_agents.Reduce.{reduce_tick, rebuild_state_from_ticks, replay_ticks_stream}
use llama_agents.Reduce.{rewind_worker, rearm_worker}
use llama_agents.Effects.{◌▷◌}
use llama_agents.Timers.{process_wakeup_tick}
use llama_agents.Framed.Rest.{Continues, reduce_tick-Continues}
use llama_agents.Waking.{AllWoken, process_wakeup_tick-AllWoken}
use llama_agents.Resuming.{
  HasWorkOf, rewind_worker-HasWorkOf, IsResumed, rewind_in_progress-IsResumed,
}
use llama_agents.Visiting.{EveryWorker}
use llama_agents.Reduce.{rewind_in_progress}
use llama_agents.Capacity.Slots.{IsValid, AllValid}
use llama_agents.Capacity.Dispatching.{add_or_enqueue_event-IsValid}
use llama_agents.Capacity.Ticks.{reduce_tick-AllValid}
use llama_agents.Replay.{
  state_of, replay_ticks_stream-rebuild_state_from_ticks, emitted_by,
  replay_ticks_stream-exit_command,
}
use llama_agents.Draining.{Started, IsDrained, drain_eligible_queue-Started}
use llama_agents.BatchSearch.{
  IsBatch, select_static_collect_batch-IsBatch, select_static_collect_batch-none,
}
use llama_agents.Recovery.{outcome-retry_decision}
use llama_agents.Recovery.Ancestry.{begun, outcome-bounded}
use llama_agents.Prelude.{◌≤◌, String}
use llama_agents.Types.{indicates_exit}
use llama_agents.Types.{InternalStepWorkerState, InProgressState}
use llama_agents.Dispatch.{start_worker, execution}
use llama_agents.Executing.{Runs}
use llama_agents.Quiescence.{IsHealthy, detect_stuck_streams-IsHealthy}
use llama_agents.Collecting.{collected, fired_once}
use llama_agents.Collecting.Once.{collected-once}
use llama_agents.Types.{Class, TickAddEvent}
use llama_agents.Prelude.{ℕ, arith, take, init}
use llama_agents.Samples.{work_config}
use llama_agents.OpenWork.{StreamsOpen, reduce_tick-StreamsOpen}
use llama_agents.Accepting.{accepts, count_accepting_steps-select}
use llama_agents.Samples.{
  world, item, pair_left, execution_of, work_state, handler, gathering, broker_config, busy,
  work_state-IsValid, busy-AllValid, finished_tick, wake_tick, pending, params, log, failure,
}

reduce_tick-AllValid_example : Keeps AllValid (reduce_tick world none finished_tick busy (pos 20))
reduce_tick-AllValid_example =
    reduce_tick-AllValid world (pos 20) none finished_tick busy busy-AllValid

reduce_tick-StreamsOpen_example :
    Keeps StreamsOpen (reduce_tick world none finished_tick busy (pos 20))
reduce_tick-StreamsOpen_example =
    reduce_tick-StreamsOpen world (pos 20) none finished_tick busy (refl, tt)

drain_eligible_queue-Started_example :
    Gives
      (λ ws'. IsDrained ws' × ((started : List EventAttempt) × Started work_state ws' started))
      (drain_eligible_queue world (pos 20) (root "work") work_state)
drain_eligible_queue-Started_example =
    drain_eligible_queue-Started world (pos 20) (root "work") work_state work_state-IsValid

selected : select_static_collect_batch world false pending params ≡ some (1 ∷ 0 ∷ [])
unfolding select_static_collect_batch class_of same_class Class-discrete ℕ_discrete
selected = refl

unselected : select_static_collect_batch world false (pair_left ∷ []) params ≡ none
unfolding select_static_collect_batch class_of same_class Class-discrete ℕ_discrete
unselected = refl

select_static_collect_batch-IsBatch_example :
    IsBatch world false pending params [] (1 ∷ 0 ∷ [])
    × Returns (λ b. Unit) (bind_batch pending params (1 ∷ 0 ∷ []) [])
select_static_collect_batch-IsBatch_example =
    select_static_collect_batch-IsBatch world false pending params (1 ∷ 0 ∷ []) selected

select_static_collect_batch-none_example :
    ¬ IsBatch world false (pair_left ∷ []) params [] (0 ∷ 0 ∷ [])
select_static_collect_batch-none_example =
    select_static_collect_batch-none world false (pair_left ∷ []) params (0 ∷ 0 ∷ []) unselected

abbrev idle : InternalStepWorkerState
idle = record work_state { queue = []; in_progress = [] }

-- The step `gather` at rest, and three members for it.
abbrev gather_state : InternalStepWorkerState
gather_state = record idle {
  config = record work_config { collection_param = some ("items", Class.user 0 ∷ []) };
}

abbrev gathering_state : BrokerState
gathering_state = record busy { workers = ("gather", gather_state) ∷ [] }

abbrev member : ℕ → TickAddEvent
member n = record {
  event = item n;
  step_id = none;
  bound_events = none;
  attempts = none;
  first_attempt_at = none;
  last_exception = none;
  last_failed_at = none;
  recovery_counts = [];
  scope_path = "stream-a" ∷ [];
  collection_release_payload = none;
  work_item_id = none;
}

gather_state-IsValid : IsValid gather_state
gather_state-IsValid = (omega arith, tt, tt)

collected-once_example :
    collected world
      (pos 20)
      gathering
      "stream-a"
      []
      (member 1 ∷ member 2 ∷ member 3 ∷ [])
      gathering_state
    ≡ fired_once world
        (pos 20)
        gathering
        "stream-a"
        []
        (item 1 ∷ item 2 ∷ [])
        gather_state
        gathering_state
unfolding lookup take_threshold take init
collected-once_example =
    collected-once world (pos 20) gathering "stream-a" [] (member 1 ∷ member 2 ∷ member 3 ∷ [])
      gathering_state gather_state refl refl refl gather_state-IsValid (refl, (refl, (refl, tt)))

add_or_enqueue_event-IsValid_example :
    Gives
      (λ ws'. IsValid ws' × (ws'.config ≡ work_state.config))
      (add_or_enqueue_event world (pos 20) (attempt_of (item 5)) (root "work") work_state)
add_or_enqueue_event-IsValid_example =
    add_or_enqueue_event-IsValid world (pos 20) (attempt_of (item 5)) (root "work") work_state
      work_state-IsValid

replay_ticks_stream-rebuild_state_from_ticks_example :
    state_of (replay_ticks_stream world none (pos 20) log busy)
    ≡ rebuild_state_from_ticks world none (pos 20) log busy
replay_ticks_stream-rebuild_state_from_ticks_example =
    replay_ticks_stream-rebuild_state_from_ticks world none (pos 20) log busy

replay_ticks_stream-exit_command_example :
    Ensures
      (λ r.
        r.exit_command ≡ last? (select indicates_exit (emitted_by world none (pos 20) log busy)))
      (replay_ticks_stream world none (pos 20) log busy)
replay_ticks_stream-exit_command_example =
    replay_ticks_stream-exit_command world none (pos 20) log busy

recovers :
    outcome world none "work" failure (execution_of (item 1) 1) broker_config none
    ≡ Outcome.recover handler 1
unfolding outcome lookup
recovers = refl

-- The first execution of an item, with no recovery before it.
abbrev first_execution : InProgressState
first_execution = execution world (pos 20) (root "work") (attempt_of (item 1)) 0 idle

first_execution-Runs : Runs world (pos 20) (attempt_of (item 1)) first_execution
unfolding start_worker
first_execution-Runs = (root "work", idle, 0, _, _, refl, refl)

first_recovers :
    outcome world none "work" failure first_execution broker_config none ≡ Outcome.recover handler 1
unfolding outcome lookup execution attempt_of
first_recovers = refl

outcome-bounded_example :
    ((owner : String) × (lookup "work" broker_config.handler_for_step ≡ some owner)
      × (lookup owner broker_config.catch_error_handlers ≡ some handler))
    × (1 ≤ handler.max_recoveries)
unfolding lookup attempt_of
outcome-bounded_example =
    outcome-bounded world none broker_config "rescue" first_execution 0 "work" failure none handler
      1 (begun (pos 20) (attempt_of (item 1)) first_execution refl first_execution-Runs)
      first_recovers refl

outcome-retry_decision_example :
    outcome world none "work" failure (execution_of (item 1) 1) broker_config none
    ≡ outcome world (some "run") "work" failure (execution_of (item 1) 1) broker_config (some 3)
outcome-retry_decision_example =
    outcome-retry_decision "work" failure (execution_of (item 1) 1) broker_config
      (record { delay = none }) world world none (some "run") none (some 3) refl

detect_stuck_streams-IsHealthy_example : (detect_stuck_streams busy ≡ none) ↔ IsHealthy busy
detect_stuck_streams-IsHealthy_example = detect_stuck_streams-IsHealthy busy

count_accepting_steps-select_example :
    count_accepting_steps world busy (class_of (item 3))
    ≡ length (select (accepts world (item 3)) (values busy.config.steps))
count_accepting_steps-select_example = count_accepting_steps-select world (item 3) busy

reduce_tick-Continues_example :
    Keeps (Continues busy) (reduce_tick world none wake_tick busy (pos 61))
reduce_tick-Continues_example = reduce_tick-Continues world (pos 61) none wake_tick busy

process_wakeup_tick-AllWoken_example :
    Gives (AllWoken (pos 60) busy) (process_wakeup_tick world (pos 61) (pos 60) busy)
unfolding lookup
process_wakeup_tick-AllWoken_example =
    process_wakeup_tick-AllWoken (pos 60) world (pos 61) busy ((refl, tt)) busy-AllValid

rewind_in_progress-IsResumed_example :
    Gives (EveryWorker (IsResumed world (pos 20))) (rewind_in_progress world (pos 20) busy)
rewind_in_progress-IsResumed_example = rewind_in_progress-IsResumed world (pos 20) busy

rewind_worker-HasWorkOf_example :
    Gives
      (HasWorkOf work_state)
      (drain_eligible_queue world (pos 20) (root "work") (rewind_worker work_state) ▷ rearm_worker)
rewind_worker-HasWorkOf_example = rewind_worker-HasWorkOf world (pos 20) (root "work") work_state

resolve_from-resolved_example :
    Gives
      (λ r.
        (r.0.collected_waiters ≡ map (resolved world (pos 20) (item 9) "work" false) (waiter ∷ []))
        × (r.1 ≡ any (matches world (pos 20) (item 9) "work" false) (waiter ∷ [])))
      (resolve_from world (pos 20) (item 9) "work" false [] (waiter ∷ []) (waiting_state, false))
resolve_from-resolved_example =
    resolve_from-resolved world (pos 20) (item 9) "work" false waiting_state work_state-IsValid

apply_add_collected-IsSerial_example :
    IsSerial work_tick "batch"
      (item 1)
      work_state
      progress
      (apply_add_collected world none work_tick "batch" (item 1) work_state progress)
apply_add_collected-IsSerial_example =
    apply_add_collected-IsSerial work_tick "batch" (item 1) world none work_state progress refl

abbrev first_tick : Reduced
first_tick = reduce_tick world none arrival (from_workflow flow) (pos 20)

-- What a tick returns, and the start where it raises.
abbrev returned : Reduced → BrokerState × List WorkflowCommand
returned (ok r) = r
returned (raise e) = (from_workflow flow, [])

arrives : first_tick ≡ ok (returned first_tick)
unfolding reduce_tick from_workflow issubclass class_of deepcopy lookup ℕ_discrete assign in_worker
arrives = refl

from_workflow-Reaches_example :
    AllValid (returned first_tick).0
    × StreamsOpen (returned first_tick).0
    × ((returned first_tick).0.config ≡ (from_workflow flow).config)
from_workflow-Reaches_example = from_workflow-Reaches world none flow (returned first_tick).0 (
    ticked (from_workflow flow) (returned first_tick).0 arrival (pos 20) (returned first_tick).1
      started arrives)
