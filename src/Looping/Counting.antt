-- ===== src/Looping/Counting.antt =====
-- The ticks of a kind in the buffer, over the commands of a tick (the inner loop of `run` of workflows/runtime/control_loop/runner.py).
use llama_agents.Prelude.{
  ℕ, suc, ◌+◌, ◌≡◌, refl, ap, ◌∙◌, ℤ, String, Bool, true, false, Option, List, [], ◌∷◌, ◌++◌, All,
  if◌then◌else◌, if_case, arith, ok, raise, Ensures,
}
use llama_agents.Types.{TickAddEvent, WorkflowCommand, WorkflowTick, World}
use llama_agents.Effects.{Reduced}
use llama_agents.Reduce.{reduce_tick}
use llama_agents.Looping.Runner.{
  Runner, going, finished, failed, by_reducer, append_tick, schedule_tick, cleanup_tasks,
  count_reading,
}
use llama_agents.Looping.Commands.{queued_tick, process_command, process_commands, process_tick}
use llama_agents.Looping.Live.{Goes}
use llama_agents.Silence.{is_queue, NoQueue, IsSilent}
use llama_agents.Silence.Ticks.{is_result}

-- The ticks of a kind.
pub ticks_of : (WorkflowTick → Bool) → List WorkflowTick → ℕ
ticks_of p [] = 0
ticks_of p (tick ∷ ticks) = let rest = ticks_of p ticks in if p tick then suc rest else rest

-- Neither a step's result nor an idle check.
abbrev pub is_other : WorkflowTick → Bool
is_other (WorkflowTick.step_result tick) = false
is_other WorkflowTick.idle_check = false
is_other _ = true

module _ (p : WorkflowTick → Bool) where
  pub ticks_of-append :
      (xs ys : List WorkflowTick) → ticks_of p (xs ++ ys) ≡ ticks_of p xs + ticks_of p ys
  unfolding ticks_of
  ticks_of-append [] ys = omega arith
  ticks_of-append (x ∷ xs) ys = ground (arith, ticks_of-append xs ys)

  pub appended :
      (xs : List WorkflowTick) (tick : WorkflowTick)
      → p tick ≡ false
      → ticks_of p (xs ++ tick ∷ []) ≡ ticks_of p xs
  unfolding ticks_of
  appended xs tick h = ticks_of-append xs (tick ∷ []) ∙ ground (arith, h)

  module _ (tick : WorkflowTick) (rest : List WorkflowTick) where
    pub counted :
        p tick ≡ true
        → (ticks : List WorkflowTick) → ticks ≡ tick ∷ rest
        → ticks_of p ticks ≡ suc (ticks_of p rest)
    unfolding ticks_of
    counted h ticks e = ap (ticks_of p) e ∙ ground (arith, h)

    pub not_counted :
        p tick ≡ false
        → (ticks : List WorkflowTick) → ticks ≡ tick ∷ rest
        → ticks_of p ticks ≡ ticks_of p rest
    unfolding ticks_of
    not_counted h ticks e = ap (ticks_of p) e ∙ ground (arith, h)

-- The events that a command queues are not of the kind `p`.
abbrev pub AddsNone : (WorkflowTick → Bool) → WorkflowCommand → Type 0
AddsNone p c = is_queue c ≡ true → (tick : TickAddEvent) → p (WorkflowTick.add_event tick) ≡ false

pub no_results : (m : Reduced) → Ensures (λ reduced. All (AddsNone is_result) reduced.1) m
no_results (ok (s, cs)) = every_one cs
  where
    every_one : (cs : List WorkflowCommand) → All (AddsNone is_result) cs
    every_one [] = tt
    every_one (c ∷ cs) = (λ queued tick. refl, every_one cs)
no_results (raise e) = tt

pub no_others :
    (p : WorkflowTick → Bool) (m : Reduced)
    → IsSilent m
    → Ensures (λ reduced. All (AddsNone p) reduced.1) m
no_others p (ok (s, cs)) h = every_one cs h.quiet
  where
    every_one : (cs : List WorkflowCommand) → NoQueue cs → All (AddsNone p) cs
    every_one [] q = tt
    every_one (c ∷ cs) q = (λ queued tick. absurd (ground (arith, q.0, queued)), every_one cs q.1)
no_others p (raise e) h = tt

-- Commands that queue no event of the kind `p` leave the number of its ticks.
module _ (get_now : ℕ → ℤ) (p : WorkflowTick → Bool) (n : ℕ) where
  module _ (no_check : p WorkflowTick.idle_check ≡ false) where
    command-Counted :
        (c : WorkflowCommand)
        → AddsNone p c
        → (r : Runner) → ticks_of p r.tick_buffer ≡ n
        → Goes (λ r'. ticks_of p r'.tick_buffer ≡ n) (process_command get_now c r)
    unfolding process_command queued_tick cleanup_tasks count_reading append_tick schedule_tick
    command-Counted (WorkflowCommand.queue_event event step_id counts scope_path) a r h =
        appended p r.tick_buffer (queued_tick event step_id counts scope_path) (a refl _) ∙ h
    command-Counted (WorkflowCommand.run_worker step_id event id bound_events) a r h = h
    command-Counted (WorkflowCommand.halt exception) a r h = tt
    command-Counted (WorkflowCommand.complete_run result) a r h = h
    command-Counted (WorkflowCommand.publish_event event) a r h = h
    command-Counted (WorkflowCommand.fail_workflow step_id exception) a r h = tt
    command-Counted WorkflowCommand.schedule_idle_check a r h =
        if_case {A = Runner} (λ r'. ticks_of p r'.tick_buffer ≡ n) r.idle_check_pending _ _
          (λ pending. h) (λ none_yet. appended p r.tick_buffer WorkflowTick.idle_check no_check ∙ h)
    command-Counted (WorkflowCommand.schedule_waiter_timeout step_id id timeout) a r h = h
    command-Counted (WorkflowCommand.schedule_wakeup at_time) a r h = h

    commands-Counted :
        (cs : List WorkflowCommand)
        → All (AddsNone p) cs
        → (r : Runner) → ticks_of p r.tick_buffer ≡ n
        → Goes (λ r'. ticks_of p r'.tick_buffer ≡ n) (process_commands get_now cs r)
    unfolding process_commands
    commands-Counted [] a r h = h
    commands-Counted (c ∷ cs) a r h =
        elim (process_command get_now c r)
            as (λ m.
              Goes (λ r'. ticks_of p r'.tick_buffer ≡ n) m
              → Goes (λ r'. ticks_of p r'.tick_buffer ≡ n)
                  (elim m [
                    | going r' ↦ process_commands get_now cs r'
                    | finished result r' ↦ finished result r'
                    | failed e r' ↦ failed e (cleanup_tasks r')
                  ])) [
                    | going r' ↦ λ h'. commands-Counted cs a.1 r' h'
                    | finished result r' ↦ λ h'. h'
                    | failed e r' ↦ λ h'. tt
                  ]
          (command-Counted c a.0 r h)

    module _ (w : World) (run_id : Option String) where
      pub process_tick-Counted :
          (tick : WorkflowTick) (r : Runner)
          → Ensures
              (λ reduced. All (AddsNone p) reduced.1)
              (reduce_tick w run_id tick r.state (get_now r.readings))
          → ticks_of p r.tick_buffer ≡ n
          → Goes (λ r'. ticks_of p r'.tick_buffer ≡ n) (process_tick get_now w run_id tick r)
      unfolding process_tick
      process_tick-Counted tick r a h =
          elim (reduce_tick w run_id tick r.state (get_now r.readings))
              as (λ m.
                Ensures (λ reduced. All (AddsNone p) reduced.1) m
                → Goes (λ r'. ticks_of p r'.tick_buffer ≡ n)
                    (elim m [
                      | raise e ↦ failed (by_reducer e) (cleanup_tasks (count_reading r))
                      | ok (state, commands) ↦ process_commands get_now commands (record r {
                        state = state;
                        journal = r.journal ++ (tick, get_now r.readings) ∷ [];
                        readings = suc r.readings;
                      })
                    ])) [
                      | raise e ↦ λ a'. tt
                      | ok (state, commands) ↦ λ a'. commands-Counted commands a' _ h
                    ]
            a
