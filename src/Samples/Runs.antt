-- ===== src/Samples/Runs.antt =====
-- A run of the workflow of the parent module, and the theorems on the runner at it.
use llama_agents.Prelude.{
  ℕ, ◌+◌, ◌<◌, ◌≡◌, refl, ℤ, pos, ◌+ℤ◌, ◌-ℤ◌, sorted_keys, none, some, List, [], ◌∷◌, length, find,
  ok, lookup, assign, ℕ_discrete,
}
use llama_agents.Types.{
  WorkflowCommand, WorkflowTick, indicates_exit, issubclass, class_of, deepcopy, root, Exception,
}
use llama_agents.Start.{from_workflow}
use llama_agents.Effects.{in_worker}
use llama_agents.Reduce.{reduce_tick, rewind_in_progress, rebuild_state_from_ticks}
use llama_agents.Looping.Wakeups.{Wakeup, before, next_wakeup_timeout, pop_due_ticks}
use llama_agents.Looping.Runner.{Runner, Progressed, going, finished, failed}
use llama_agents.Looping.Commands.{process_commands, queued_tick}
use llama_agents.Looping.Turns.{new_runner, begin_run, pop_tick}
use llama_agents.Looping.Live.{Live, begun, popped}
use llama_agents.Looping.Waiting.{Sorted, IsDue, pop_due_ticks-IsDue, next_wakeup_timeout-due}
use llama_agents.Looping.IdleChecks.{IsOrderly}
use llama_agents.Looping.Orderly.{Live-IsOrderly}
use llama_agents.Looping.Rounds.{Drains}
use llama_agents.Looping.Emptying.{drain_buffer-Drains}
use llama_agents.Looping.Journal.{Live-rebuild_state_from_ticks}
use llama_agents.Looping.Exits.{EndsBy, process_commands-EndsBy}
use llama_agents.Samples.{world, item, flow, wake_tick}

abbrev clock : ℕ → ℤ
clock n = pos (10 + n)

-- The runner with which the loop goes on.
abbrev gone : Progressed → Runner
gone (going r) = r
gone (finished result r) = r
gone (failed e r) = r

abbrev begins : Progressed
begins =
    begin_run world clock none (some (item 1)) (some (pos 100)) (new_runner (from_workflow flow))

abbrev after_start : Progressed
after_start = pop_tick world clock none (queued_tick (item 1) none [] []) [] (gone begins)

abbrev StartLive : Runner → Type 0
StartLive = Live world clock none (from_workflow flow) (some (item 1)) (some (pos 100))

begins-Live : StartLive (gone begins)
unfolding begin_run from_workflow reduce_tick issubclass class_of deepcopy lookup ℕ_discrete assign
    in_worker rewind_in_progress sorted_keys new_runner
begins-Live = begun (gone begins) refl

after_start-Live : StartLive (gone after_start)
unfolding begin_run pop_tick from_workflow reduce_tick issubclass class_of deepcopy lookup
    ℕ_discrete assign in_worker rewind_in_progress sorted_keys new_runner
after_start-Live =
    popped (gone begins) (gone after_start) (queued_tick (item 1) none [] []) [] begins-Live refl
      refl

Live-IsOrderly_example : IsOrderly (gone after_start)
Live-IsOrderly_example =
    Live-IsOrderly world clock none (from_workflow flow) (some (item 1)) (some (pos 100))
      (gone after_start) after_start-Live

drain_buffer-Drains_example : Drains world clock none (gone begins)
drain_buffer-Drains_example =
    drain_buffer-Drains world clock none (from_workflow flow) (some (item 1)) (some (pos 100))
      (gone begins) begins-Live

Live-rebuild_state_from_ticks_example :
    rebuild_state_from_ticks world none (clock 0) (gone after_start).journal (from_workflow flow)
    ≡ ok (gone after_start).state
Live-rebuild_state_from_ticks_example =
    Live-rebuild_state_from_ticks world clock none (from_workflow flow) (some (item 1))
      (some (pos 100)) (gone after_start) after_start-Live

abbrev two_wakeups : List Wakeup
two_wakeups =
    record { at_time = pos 20; seq = 1; tick = wake_tick }
    ∷ record { at_time = pos 40; seq = 0; tick = WorkflowTick.timeout (pos 30) }
    ∷ []

two_wakeups-Sorted : Sorted two_wakeups
unfolding before
two_wakeups-Sorted = ((refl, tt), (tt, tt))

pop_due_ticks-IsDue_example : IsDue (pos 25) two_wakeups (pop_due_ticks (pos 25) two_wakeups)
pop_due_ticks-IsDue_example = pop_due_ticks-IsDue (pos 25) two_wakeups two_wakeups-Sorted

next_wakeup_timeout-due_example : 0 < length (pop_due_ticks (pos 20) two_wakeups).0
unfolding next_wakeup_timeout ◌+ℤ◌ ◌-ℤ◌
next_wakeup_timeout-due_example =
    next_wakeup_timeout-due (pos 12) (pos 8) (pos 20) two_wakeups refl refl

abbrev last_words : List WorkflowCommand
last_words =
    WorkflowCommand.publish_event (item 1)
    ∷ WorkflowCommand.complete_run (item 2)
    ∷ WorkflowCommand.fail_workflow (root "work") (Exception.step_exception 0)
    ∷ []

process_commands-EndsBy_example :
    EndsBy
      (find indicates_exit last_words)
      (process_commands clock last_words (new_runner (from_workflow flow)))
process_commands-EndsBy_example =
    process_commands-EndsBy clock last_words (new_runner (from_workflow flow))
