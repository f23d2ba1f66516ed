-- ===== src/Looping/Live.antt =====
-- The runners that a run passes through (`run` of workflows/runtime/control_loop/runner.py), and how
-- predicates of runners are kept.
use llama_agents.Prelude.{
  ℕ, suc, ℤ, ◌≡◌, String, true, false, Option, some, List, [], ◌∷◌, ◌++◌, if◌then◌else◌, if_case,
  ok, raise,
}
use llama_agents.Types.{BrokerState, Event, WorkflowCommand, WorkflowTick, World}
use llama_agents.Reduce.{reduce_tick, rewind_in_progress}
use llama_agents.Looping.Runner.{
  Runner, Progressed, going, finished, failed, cleanup_tasks, count_reading, by_reducer,
}
use llama_agents.Looping.Commands.{process_command, process_commands, process_tick}
use llama_agents.Looping.Turns.{
  Completed, pulled, is_idle_check, pop_tick, accept, start_workers, new_runner, begin_run,
  process_rewound, enqueue_start, schedule_timeout,
}

-- What is received from outside is no idle check, which the loop alone makes.
abbrev pub IsOutside : Completed → Type 0
IsOutside (pulled (some tick)) = is_idle_check tick ≡ false
IsOutside _ = Unit

module _ (w : World) (get_now : ℕ → ℤ) (run_id : Option String) where
  pub data Live (init_state : BrokerState) (start_event : Option Event) (timeout : Option ℤ)
      : Runner → Type 0 where
    begun :
        (r : Runner)
        → begin_run w get_now run_id start_event timeout (new_runner init_state) ≡ going r
        → Live init_state start_event timeout r
    popped :
        (r r' : Runner) (tick : WorkflowTick) (rest : List WorkflowTick)
        → Live init_state start_event timeout r
        → r.tick_buffer ≡ tick ∷ rest
        → pop_tick w get_now run_id tick rest r ≡ going r'
        → Live init_state start_event timeout r'
    woken :
        (r : Runner) (completed : Completed)
        → Live init_state start_event timeout r
        → r.tick_buffer ≡ []
        → IsOutside completed
        → Live init_state start_event timeout (accept w get_now run_id completed (start_workers r))

-- `P` of the runner with which the loop goes on or returns, if it does.
abbrev pub Goes : (Runner → Type 0) → Progressed → Type 0
Goes P (going r) = P r
Goes P (finished result r) = P r
Goes P (failed e r) = Unit

pub Goes-going : (P : Runner → Type 0) (m : Progressed) (r : Runner) → Goes P m → m ≡ going r → P r
Goes-going P m r h e = rw e at h

-- A predicate that each command keeps is kept by all commands of a tick, and of a rewind.
module _ (get_now : ℕ → ℤ) (P : Runner → Type 0)
    (command : (c : WorkflowCommand) (r : Runner)
      → P r
      → Goes P (process_command get_now c r)) where
  pub commands-Goes :
      (cs : List WorkflowCommand) (r : Runner) → P r → Goes P (process_commands get_now cs r)
  unfolding process_commands
  commands-Goes [] r h = h
  commands-Goes (c ∷ cs) r h =
      elim (process_command get_now c r)
          as (λ m.
            Goes P m
            → Goes P (elim m [
              | going r' ↦ process_commands get_now cs r'
              | finished result r' ↦ finished result r'
              | failed e r' ↦ failed e (cleanup_tasks r')
            ])) [
              | going r' ↦ λ h'. commands-Goes cs r' h'
              | finished result r' ↦ λ h'. h'
              | failed e r' ↦ λ h'. tt
            ]
        (command c r h)

  module _ (w : World) (run_id : Option String) where
    pub rewound-Goes :
        (cs : List WorkflowCommand) (r : Runner)
        → P r
        → Goes P (process_rewound w get_now run_id cs r)
    unfolding process_rewound
    rewound-Goes [] r h = h
    rewound-Goes (c ∷ cs) r h =
        elim (process_command get_now c r)
            as (λ m.
              Goes P m
              → Goes P (elim m [
                | going r' ↦ process_rewound w get_now run_id cs r'
                | finished result r' ↦ process_rewound w get_now run_id cs r'
                | failed e r' ↦ failed e (cleanup_tasks r')
              ])) [
                | going r' ↦ λ h'. rewound-Goes cs r' h'
                | finished result r' ↦ λ h'. rewound-Goes cs r' h'
                | failed e r' ↦ λ h'. tt
              ]
          (command c r h)

module _ (w : World) (get_now : ℕ → ℤ) (run_id : Option String) where
  -- A predicate that holds of a runner before its main loop's first round, that commands and rounds
  -- keep, and that reads neither the state nor the journal nor the clock.
  pub record IsKept (P : Runner → Type 0) : Type 0 where
    pub fresh :
        (init state : BrokerState) (start_event : Option Event) (timeout : Option ℤ) (start : ℤ)
        → P
            (record (schedule_timeout timeout start
              (count_reading (enqueue_start start_event (new_runner init)))) { state = state })
    pub command : (c : WorkflowCommand) (r : Runner) → P r → Goes P (process_command get_now c r)
    pub reduced :
        (r : Runner) (state : BrokerState) (journal : List (WorkflowTick × ℤ)) (readings : ℕ)
        → P r
        → P (record r { state = state; journal = journal; readings = readings })
    pub last :
        (r : Runner) (tick : WorkflowTick)
        → r.tick_buffer ≡ tick ∷ []
        → P r
        → P (record r {
          tick_buffer = [];
          idle_check_pending = if is_idle_check tick then false else r.idle_check_pending;
        })
    pub rotated :
        (r : Runner) (tick t : WorkflowTick) (rest : List WorkflowTick)
        → r.tick_buffer ≡ tick ∷ t ∷ rest
        → is_idle_check tick ≡ true
        → P r
        → P (record r { tick_buffer = (t ∷ rest) ++ tick ∷ [] })
    pub taken :
        (r : Runner) (tick t : WorkflowTick) (rest : List WorkflowTick)
        → r.tick_buffer ≡ tick ∷ t ∷ rest
        → is_idle_check tick ≡ false
        → P r
        → P (record r { tick_buffer = t ∷ rest })
    pub accepted :
        (completed : Completed) (r : Runner)
        → IsOutside completed
        → P r
        → P (accept w get_now run_id completed (start_workers r))

  module _ (P : Runner → Type 0) (kept : IsKept P) where
    tick-Goes :
        (tick : WorkflowTick) (r : Runner) → P r → Goes P (process_tick get_now w run_id tick r)
    unfolding process_tick
    tick-Goes tick r h =
        elim (reduce_tick w run_id tick r.state (get_now r.readings))
          as (λ m. Goes P (elim m [
            | raise e ↦ failed (by_reducer e) (cleanup_tasks (count_reading r))
            | ok (state, commands) ↦ process_commands get_now commands (record r {
              state = state;
              journal = r.journal ++ (tick, get_now r.readings) ∷ [];
              readings = suc r.readings;
            })
          ])) [
            | raise e ↦ tt
            | ok (state, commands) ↦
                commands-Goes get_now P kept.command commands _ (kept.reduced r state _ _ h)
          ]

    pub pop-Goes :
        (tick : WorkflowTick) (rest : List WorkflowTick) (r : Runner)
        → r.tick_buffer ≡ tick ∷ rest
        → P r
        → Goes P (pop_tick w get_now run_id tick rest r)
    unfolding pop_tick
    pop-Goes tick [] r e h = tick-Goes tick _ (kept.last r tick e h)
    pop-Goes tick (t ∷ rest) r e h =
        if_case (Goes P) (is_idle_check tick) _ _ (λ idle. kept.rotated r tick t rest e idle h)
          (λ other. tick-Goes tick _ (kept.taken r tick t rest e other h))

  module _ (P : Runner → Type 0) (kept : IsKept P) (init : BrokerState) (start_event : Option Event)
      (timeout : Option ℤ) where
    begin-Goes : Goes P (begin_run w get_now run_id start_event timeout (new_runner init))
    unfolding begin_run
    begin-Goes =
        let r : Runner = new_runner init in
        elim (rewind_in_progress w (get_now r.readings) r.state)
          as (λ m. Goes P (elim m [
            | raise e ↦ failed (by_reducer e) (count_reading r)
            | ok (state, commands) ↦
                process_rewound w get_now run_id commands
                  (record (schedule_timeout timeout (get_now r.readings)
                    (count_reading (enqueue_start start_event r))) { state = state })
          ])) [
            | raise e ↦ tt
            | ok (state, commands) ↦
                rewound-Goes get_now P kept.command w run_id commands _
                  (kept.fresh init state start_event timeout (get_now r.readings))
          ]

    -- What is kept holds in every runner that a run passes through.
    pub Live-kept : (r : Runner) → Live w get_now run_id init start_event timeout r → P r
    Live-kept r (begun _ e) = Goes-going P _ r begin-Goes e
    Live-kept r' (popped r _ tick rest before e again) =
        Goes-going P _ r' (pop-Goes P kept tick rest r e (Live-kept r before)) again
    Live-kept r' (woken r completed before e outside) =
        kept.accepted completed r outside (Live-kept r before)
