-- ===== src/Looping/IdleChecks.antt =====
-- Idle checks and wakeups over a whole run (workflows/runtime/control_loop/runner.py): the flag
-- `_idle_check_pending` and the order of the heap.
use llama_agents.Prelude.{
  ℕ, suc, ◌+◌, ◌≡◌, refl, sym, ◌∙◌, ℤ, String, Bool, true, false, none, some, List, [], ◌∷◌, ◌++◌,
  if◌then◌else◌, if_case, All, arith, is_empty, ◌&&◌, lookup,
}
use llama_agents.Types.{BrokerState, StepWorkerWaiter, WorkflowCommand, WorkflowTick}
use llama_agents.Looping.Runner.{Runner, append_tick, schedule_tick, cleanup_tasks, count_reading}
use llama_agents.Looping.Rehydrate.{ping_steps, ping_waiters, ping_tick, sort_waiters}
use llama_agents.Looping.Commands.{process_command, queued_tick}
use llama_agents.Looping.Turns.{is_idle_check}
use llama_agents.Looping.Live.{Goes}
use llama_agents.Looping.Waiting.{IsScheduled, schedule_tick-IsScheduled, All-push}

-- The idle checks among ticks.
unfoldable pub idle_checks : List WorkflowTick → ℕ
idle_checks [] = 0
idle_checks (tick ∷ ticks) =
    let rest = idle_checks ticks in if is_idle_check tick then suc rest else rest

abbrev pub flag : Bool → ℕ
flag true = 1
flag false = 0

pub idle_checks-append :
    (xs ys : List WorkflowTick) → idle_checks (xs ++ ys) ≡ idle_checks xs + idle_checks ys
unfolding idle_checks
idle_checks-append [] ys = omega arith
idle_checks-append (x ∷ xs) ys = ground (arith, idle_checks-append xs ys)

-- What is invariant between the rounds of the loop: the heap is in order, on distinct numbers, and
-- holds no idle check; the buffer holds one idle check where one is pending, and none otherwise.
pub record IsOrderly (r : Runner) : Type 0 where
  pub scheduled : IsScheduled r
  pub heap_quiet : All (λ a. is_idle_check a.tick ≡ false) r.scheduled_wakeups
  pub pending : idle_checks r.tick_buffer ≡ flag r.idle_check_pending

ping_waiters-quiet :
    (name : String) (ws : List StepWorkerWaiter) → idle_checks (ping_waiters name ws) ≡ 0
unfolding ping_waiters ping_tick idle_checks is_idle_check
ping_waiters-quiet name [] = refl
ping_waiters-quiet name (a ∷ ws) =
    if_case (λ ticks. idle_checks ticks ≡ 0) (a.has_requirements && is_empty a.requirements) _ _
      (λ lost. ping_waiters-quiet name ws) (λ kept. ping_waiters-quiet name ws)

pub ping_steps-quiet :
    (s : BrokerState) (names : List String) → idle_checks (ping_steps s names) ≡ 0
unfolding ping_steps idle_checks
ping_steps-quiet s [] = refl
ping_steps-quiet s (name ∷ names) =
    elim (lookup name s.workers)
      as (λ o.
        idle_checks (elim o [
          | none ↦ ping_steps s names
          | some ws ↦ ping_waiters name (sort_waiters ws.collected_waiters) ++ ping_steps s names
        ])
        ≡ 0) [
          | none ↦ ping_steps-quiet s names
          | some ws ↦
              rw
                (
                  idle_checks-append (ping_waiters name (sort_waiters ws.collected_waiters))
                      (ping_steps s names),
                  ping_waiters-quiet name (sort_waiters ws.collected_waiters),
                  ping_steps-quiet s names,
                )
                refl
        ]

pub append-pending :
    (tick : WorkflowTick) (r : Runner)
    → is_idle_check tick ≡ false
    → IsOrderly r
    → IsOrderly (append_tick tick r)
unfolding append_tick idle_checks
append-pending tick r quiet h = record {
  scheduled = record { sorted = h.scheduled.sorted; numbered = h.scheduled.numbered };
  heap_quiet = h.heap_quiet;
  pending = rw (idle_checks-append r.tick_buffer (tick ∷ []), quiet) (omega (arith, h.pending));
}

pub schedule-IsOrderly :
    (tick : WorkflowTick) (at_time : ℤ) (r : Runner)
    → is_idle_check tick ≡ false
    → IsOrderly r
    → IsOrderly (schedule_tick tick at_time r)
unfolding schedule_tick
schedule-IsOrderly tick at_time r quiet h = record {
  scheduled = schedule_tick-IsScheduled tick at_time r h.scheduled;
  heap_quiet = All-push _ _ r.scheduled_wakeups quiet h.heap_quiet;
  pending = h.pending;
}

-- The heap, the buffer and the flag are all that is looked at.
pub same-IsOrderly :
    (r r' : Runner)
    → r.scheduled_wakeups ≡ r'.scheduled_wakeups
    → r.wakeup_sequence ≡ r'.wakeup_sequence
    → r.tick_buffer ≡ r'.tick_buffer
    → r.idle_check_pending ≡ r'.idle_check_pending
    → IsOrderly r
    → IsOrderly r'
same-IsOrderly r r' e f g i h = record {
  scheduled = record {
    sorted = rw (sym e) h.scheduled.sorted;
    numbered = rw (sym e, sym f) h.scheduled.numbered;
  };
  heap_quiet = rw (sym e) h.heap_quiet;
  pending = rw (sym g, sym i) h.pending;
}

pub command-IsOrderly :
    (get_now : ℕ → ℤ) (c : WorkflowCommand) (r : Runner)
    → IsOrderly r
    → Goes IsOrderly (process_command get_now c r)
unfolding process_command is_idle_check queued_tick idle_checks cleanup_tasks count_reading
    append_tick
command-IsOrderly get_now (WorkflowCommand.queue_event event step_id counts scope_path) r h =
    append-pending (queued_tick event step_id counts scope_path) r refl h
command-IsOrderly get_now (WorkflowCommand.run_worker step_id event id bound_events) r h =
    same-IsOrderly r _ refl refl refl refl h
command-IsOrderly get_now (WorkflowCommand.halt exception) r h = tt
command-IsOrderly get_now (WorkflowCommand.complete_run result) r h =
    same-IsOrderly r _ refl refl refl refl h
command-IsOrderly get_now (WorkflowCommand.publish_event event) r h =
    same-IsOrderly r _ refl refl refl refl h
command-IsOrderly get_now (WorkflowCommand.fail_workflow step_id exception) r h = tt
command-IsOrderly get_now WorkflowCommand.schedule_idle_check r h =
    if_case IsOrderly r.idle_check_pending _ _ (λ pending. h)
      (λ none_yet. record {
        scheduled = record { sorted = h.scheduled.sorted; numbered = h.scheduled.numbered };
        heap_quiet = h.heap_quiet;
        pending =
            idle_checks-append r.tick_buffer (WorkflowTick.idle_check ∷ [])
            ∙ rw (h.pending, none_yet) (omega arith);
      })
command-IsOrderly get_now (WorkflowCommand.schedule_waiter_timeout step_id waiter_id timeout) r h =
    schedule-IsOrderly (WorkflowTick.waiter_timeout step_id waiter_id) _ (count_reading r) refl
      (same-IsOrderly r _ refl refl refl refl h)
command-IsOrderly get_now (WorkflowCommand.schedule_wakeup at_time) r h =
    schedule-IsOrderly (WorkflowTick.wakeup at_time) at_time r refl h
