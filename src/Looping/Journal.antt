-- ===== src/Looping/Journal.antt =====
-- The journal of a run (`on_tick` in `_process_tick` of workflows/runtime/control_loop/runner.py) and
-- its replay (`rebuild_state_from_ticks` of workflows/runtime/control_loop/reduce.py).
use llama_agents.Prelude.{
  ℕ, ◌≡◌, refl, sym, ap, ◌∙◌, ℤ, String, Option, none, some, List, [], ◌∷◌, ◌++◌, if_case, any,
  Result, ok, raise, ◌>>=◌, bind_cong, bind_assoc, inl, inr, ◌⊎◌,
}
use llama_agents.Types.{BrokerState, Event, WorkflowCommand, WorkflowTick, World}
use llama_agents.Reduce.{reduce_tick, rewind_in_progress, rebuild_from, rebuild_state_from_ticks}
use llama_agents.Looping.Runner.{
  Runner, Raised, going, failed, append_tick, schedule_tick, cleanup_tasks, count_reading,
}
use llama_agents.Looping.Commands.{process_command, process_tick}
use llama_agents.Looping.Turns.{
  Completed, timed_out, pulled, pull_failed, worker_done, worker_lost, is_idle_check, accept,
  start_workers, new_runner, enqueue_start, schedule_timeout, drop_running, is_stop_result,
  pop_tick, begin_run,
}
use llama_agents.Looping.Live.{
  Live, begun, popped, woken, Goes, Goes-going, commands-Goes, rewound-Goes,
}

Result-cases : {E A : Type 0} (m : Result E A) → ((e : E) × (m ≡ raise e)) ⊎ ((a : A) × (m ≡ ok a))
Result-cases (ok a) = inr (a, refl)
Result-cases (raise e) = inl (e, refl)

module _ (w : World) (get_now : ℕ → ℤ) (run_id : Option String) where
  rebuild_from-append :
      (xs ys : List (WorkflowTick × ℤ)) (s : BrokerState)
      → rebuild_from w run_id (xs ++ ys) s
        ≡ (rebuild_from w run_id xs s >>= rebuild_from w run_id ys)
  unfolding rebuild_from
  rebuild_from-append [] ys s = refl
  rebuild_from-append ((tick, now) ∷ xs) ys s =
      bind_cong (reduce_tick w run_id tick s now) _ _ (λ x. rebuild_from-append xs ys x.0)
      ∙ sym (bind_assoc (reduce_tick w run_id tick s now) _ _)

  -- The journal leads from `s` to the runner's state.
  abbrev Leads : BrokerState → Runner → Type 0
  Leads s r = rebuild_from w run_id r.journal s ≡ ok r.state

  command-Leads :
      (s : BrokerState) (c : WorkflowCommand) (r : Runner)
      → Leads s r
      → Goes (Leads s) (process_command get_now c r)
  unfolding process_command append_tick schedule_tick cleanup_tasks count_reading
  command-Leads s (WorkflowCommand.queue_event event step_id counts scope_path) r h = h
  command-Leads s (WorkflowCommand.run_worker step_id event id bound_events) r h = h
  command-Leads s (WorkflowCommand.halt exception) r h = tt
  command-Leads s (WorkflowCommand.complete_run result) r h = h
  command-Leads s (WorkflowCommand.publish_event event) r h = h
  command-Leads s (WorkflowCommand.fail_workflow step_id exception) r h = tt
  command-Leads s WorkflowCommand.schedule_idle_check r h =
      if_case (Leads s) r.idle_check_pending _ _ (λ pending. h) (λ none_yet. h)
  command-Leads s (WorkflowCommand.schedule_waiter_timeout step_id waiter_id timeout) r h = h
  command-Leads s (WorkflowCommand.schedule_wakeup at_time) r h = h

  tick-Leads :
      (s : BrokerState) (tick : WorkflowTick) (r : Runner)
      → Leads s r
      → Goes (Leads s) (process_tick get_now w run_id tick r)
  unfolding process_tick rebuild_from
  tick-Leads s tick r h =
      elim (Result-cases (reduce_tick w run_id tick r.state (get_now r.readings))) [
        | inl (e, failed_so) ↦ rw (failed_so, process_tick) tt
        | inr (x, reduced) ↦
            rw (reduced, process_tick)
              (commands-Goes get_now (Leads s) (command-Leads s) x.1 _ (
                rebuild_from-append r.journal ((tick, get_now r.readings) ∷ []) s
                ∙ rw (h, reduced) refl))
      ]

  pop-Leads :
      (s : BrokerState) (tick : WorkflowTick) (rest : List WorkflowTick) (r : Runner)
      → Leads s r
      → Goes (Leads s) (pop_tick w get_now run_id tick rest r)
  unfolding pop_tick
  pop-Leads s tick [] r h = tick-Leads s tick _ h
  pop-Leads s tick (t ∷ rest) r h =
      if_case (Goes (Leads s)) (is_idle_check tick) _ _ (λ idle. h) (λ other. tick-Leads s tick _ h)

  accept-Leads :
      (s : BrokerState) (completed : Completed) (r : Runner)
      → Leads s r
      → Leads s (accept w get_now run_id completed (start_workers r))
  unfolding accept start_workers count_reading cleanup_tasks drop_running append_tick
  accept-Leads s timed_out r h = h
  accept-Leads s (pulled none) r h = h
  accept-Leads s (pulled (some tick)) r h = h
  accept-Leads s pull_failed r h = h
  accept-Leads s (worker_done step_id worker_id tick) r h =
      if_case (Leads s) (any (is_stop_result w get_now run_id) tick.result)
        (cleanup_tasks (drop_running step_id worker_id (start_workers r)))
        (drop_running step_id worker_id (start_workers r)) (λ stop. h) (λ on. h)
  accept-Leads s (worker_lost step_id worker_id) r h = h

  begun_journal :
      (init : BrokerState) (start_event : Option Event) (timeout : Option ℤ) (start : ℤ)
      → (schedule_timeout timeout start
          (count_reading (enqueue_start start_event (new_runner init)))).journal
        ≡ []
  unfolding schedule_timeout enqueue_start new_runner count_reading append_tick schedule_tick
  begun_journal init none none start = refl
  begun_journal init none (some t) start = refl
  begun_journal init (some event) none start = refl
  begun_journal init (some event) (some t) start = refl

  -- A run that goes on has rewound the state that it was given, and its journal leads from there to
  -- the state that it has.
  abbrev Led : BrokerState → Runner → Type 0
  Led init r =
      (x : BrokerState × List WorkflowCommand) × (rewind_in_progress w (get_now 0) init ≡ ok x)
      × Leads x.0 r

  begin-Led :
      (init : BrokerState) (start_event : Option Event) (timeout : Option ℤ) (r : Runner)
      → begin_run w get_now run_id start_event timeout (new_runner init) ≡ going r
      → Led init r
  unfolding begin_run new_runner rebuild_from
  begin-Led init start_event timeout r e =
      elim (Result-cases (rewind_in_progress w (get_now 0) init)) [
        | inl (x, failed_so) ↦ absurd (no_end _ _ r (rw (failed_so, begin_run) at e))
        | inr (x, rewound) ↦ (
          x,
          rewound,
          Goes-going (Leads x.0) _ r
              (rewound-Goes get_now (Leads x.0) (command-Leads x.0) w run_id x.1 _ (
                ap (λ j. rebuild_from w run_id j x.0)
                  (begun_journal init start_event timeout (get_now 0))))
              (rw (rewound, begin_run) at e),
        )
      ]
    where
      no_end : (y : Raised) (r0 r : Runner) → failed y r0 ≡ going r → ⊥
      no_end y r0 r e = cc

  Live-Led :
      (init : BrokerState) (start_event : Option Event) (timeout : Option ℤ) (r : Runner)
      → Live w get_now run_id init start_event timeout r
      → Led init r
  Live-Led init start_event timeout r (begun _ e) = begin-Led init start_event timeout r e
  Live-Led init start_event timeout r' (popped r _ tick rest before e again) =
      let (x, rewound, h) = Live-Led init start_event timeout r before in
      (x, rewound, Goes-going (Leads x.0) _ r' (pop-Leads x.0 tick rest r h) again)
  Live-Led init start_event timeout r' (woken r completed before e outside) =
      let (x, rewound, h) = Live-Led init start_event timeout r before in
      (x, rewound, accept-Leads x.0 completed r h)

  -- In every runner that a run passes through, if no idle check comes from outside, the state is the
  -- one to which a replay of the ticks that were journaled so far, each at the time of its reduction,
  -- rebuilds the state that the run began with.
  pub Live-rebuild_state_from_ticks :
      (init : BrokerState) (start_event : Option Event) (timeout : Option ℤ) (r : Runner)
      → Live w get_now run_id init start_event timeout r
      → rebuild_state_from_ticks w run_id (get_now 0) r.journal init ≡ ok r.state
  unfolding rebuild_state_from_ticks
  Live-rebuild_state_from_ticks init start_event timeout r live =
      let (x, rewound, h) = Live-Led init start_event timeout r live in rw rewound h
