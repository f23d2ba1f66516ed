-- ===== src/Looping/Orderly.antt =====
-- The order of heap and buffer in every runner of a run (`run` of
-- workflows/runtime/control_loop/runner.py).
use llama_agents.Prelude.{
  ℕ, suc, ◌≡◌, refl, sym, ap, subst, ◌∙◌, ℤ, ◌+ℤ◌, String, Bool, true, false, Option, none, some,
  List, [], ◌∷◌, ◌++◌, if◌then◌else◌, if_case, All, map, any, arith, sorted_keys,
}
use llama_agents.Types.{BrokerState, Event, WorkflowTick, World}
use llama_agents.Looping.Wakeups.{Wakeup, pop_due_ticks}
use llama_agents.Looping.Runner.{Runner, append_tick, schedule_tick, cleanup_tasks, count_reading}
use llama_agents.Looping.Rehydrate.{rehydrate_with_ticks}
use llama_agents.Looping.Commands.{queued_tick}
use llama_agents.Looping.Turns.{
  Completed, timed_out, pulled, pull_failed, worker_done, worker_lost, is_idle_check, accept,
  start_workers, new_runner, enqueue_start, schedule_timeout, drop_running, is_stop_result,
}
use llama_agents.Looping.Live.{IsOutside, Live, IsKept, Live-kept}
use llama_agents.Looping.Waiting.{Sorted, pop_due_ticks-IsDue}
use llama_agents.Looping.IdleChecks.{
  idle_checks, flag, IsOrderly, idle_checks-append, ping_steps-quiet, append-pending,
  schedule-IsOrderly, same-IsOrderly, command-IsOrderly,
}

idle_checks-map :
    (due : List Wakeup)
    → All (λ a. is_idle_check a.tick ≡ false) due
    → idle_checks (map (λ a. a.tick) due) ≡ 0
unfolding idle_checks
idle_checks-map [] h = refl
idle_checks-map (a ∷ due) h = rw h.0 (idle_checks-map due h.1)

module _ (P : Wakeup → Type 0) where
  All-front : (xs ys : List Wakeup) → All P (xs ++ ys) → All P xs
  All-front [] ys h = tt
  All-front (x ∷ xs) ys h = (h.0, All-front xs ys h.1)

  All-back : (xs ys : List Wakeup) → All P (xs ++ ys) → All P ys
  All-back [] ys h = h
  All-back (x ∷ xs) ys h = All-back xs ys h.1

Sorted-back : (xs ys : List Wakeup) → Sorted (xs ++ ys) → Sorted ys
Sorted-back [] ys h = h
Sorted-back (x ∷ xs) ys h = Sorted-back xs ys h.1

fresh-IsOrderly : (init : BrokerState) → IsOrderly (new_runner init)
unfolding new_runner rehydrate_with_ticks
fresh-IsOrderly init = record {
  scheduled = record { sorted = tt; numbered = tt };
  heap_quiet = tt;
  pending = ping_steps-quiet init (sorted_keys init.workers);
}

begun-IsOrderly :
    (init state : BrokerState) (start_event : Option Event) (timeout : Option ℤ) (start : ℤ)
    → IsOrderly
        (record (schedule_timeout timeout start
          (count_reading (enqueue_start start_event (new_runner init)))) { state = state })
unfolding schedule_timeout enqueue_start queued_tick is_idle_check count_reading
begun-IsOrderly init state none none start =
    same-IsOrderly (new_runner init) _ refl refl refl refl (fresh-IsOrderly init)
begun-IsOrderly init state none (some t) start =
    same-IsOrderly
      (schedule_tick (WorkflowTick.timeout t) (start +ℤ t) (count_reading (new_runner init))) _ refl
      refl refl refl
      (schedule-IsOrderly (WorkflowTick.timeout t) (start +ℤ t) (count_reading (new_runner init))
        refl (same-IsOrderly (new_runner init) _ refl refl refl refl (fresh-IsOrderly init)))
begun-IsOrderly init state (some event) none start =
    same-IsOrderly (append_tick (queued_tick event none [] []) (new_runner init)) _ refl refl refl
      refl
      (append-pending (queued_tick event none [] []) (new_runner init) refl (fresh-IsOrderly init))
begun-IsOrderly init state (some event) (some t) start =
    let r = append_tick (queued_tick event none [] []) (new_runner init) in
    same-IsOrderly (schedule_tick (WorkflowTick.timeout t) (start +ℤ t) (count_reading r)) _ refl
      refl refl refl
      (schedule-IsOrderly (WorkflowTick.timeout t) (start +ℤ t) (count_reading r) refl (
        same-IsOrderly r _ refl refl refl refl (
          append-pending (queued_tick event none [] []) (new_runner init) refl
            (fresh-IsOrderly init))))

timed_out-IsOrderly :
    (now : ℤ) (r : Runner)
    → IsOrderly r
    → IsOrderly (record r {
      tick_buffer = r.tick_buffer ++ (pop_due_ticks now r.scheduled_wakeups).0;
      scheduled_wakeups = (pop_due_ticks now r.scheduled_wakeups).1;
    })
timed_out-IsOrderly now r h =
    let popped = pop_due_ticks now r.scheduled_wakeups in
    let d = pop_due_ticks-IsDue now r.scheduled_wakeups h.scheduled.sorted in
    let quiet =
      idle_checks-map d.due (All-front _ d.due popped.1 (subst (All _) d.parts h.heap_quiet)) in
    record {
      scheduled = record {
        sorted = Sorted-back d.due popped.1 (subst Sorted d.parts h.scheduled.sorted);
        numbered = All-back _ d.due popped.1 (subst (All _) d.parts h.scheduled.numbered);
      };
      heap_quiet = All-back _ d.due popped.1 (subst (All _) d.parts h.heap_quiet);
      pending =
          idle_checks-append r.tick_buffer popped.0
          ∙ omega (arith, h.pending, ap idle_checks d.ticks, quiet);
    }

module _ (w : World) (get_now : ℕ → ℤ) (run_id : Option String) where
  accept-IsOrderly :
      (completed : Completed) (r : Runner)
      → IsOutside completed
      → IsOrderly r
      → IsOrderly (accept w get_now run_id completed (start_workers r))
  unfolding accept start_workers count_reading cleanup_tasks drop_running is_idle_check
  accept-IsOrderly timed_out r outside h =
      same-IsOrderly
        (record r {
          tick_buffer = r.tick_buffer ++ (pop_due_ticks (get_now r.readings) r.scheduled_wakeups).0;
          scheduled_wakeups = (pop_due_ticks (get_now r.readings) r.scheduled_wakeups).1;
        })
        _ refl refl refl refl (timed_out-IsOrderly (get_now r.readings) r h)
  accept-IsOrderly (pulled none) r outside h = same-IsOrderly r _ refl refl refl refl h
  accept-IsOrderly (pulled (some tick)) r outside h =
      append-pending tick (start_workers r) outside (same-IsOrderly r _ refl refl refl refl h)
  accept-IsOrderly pull_failed r outside h = same-IsOrderly r _ refl refl refl refl h
  accept-IsOrderly (worker_done step_id worker_id tick) r outside h =
      append-pending (WorkflowTick.step_result tick) _ refl (
        if_case IsOrderly (any (is_stop_result w get_now run_id) tick.result)
          (cleanup_tasks (drop_running step_id worker_id (start_workers r)))
          (drop_running step_id worker_id (start_workers r))
          (λ stop. same-IsOrderly r _ refl refl refl refl h)
          (λ on. same-IsOrderly r _ refl refl refl refl h))
  accept-IsOrderly (worker_lost step_id worker_id) r outside h =
      same-IsOrderly r _ refl refl refl refl h

  last-IsOrderly :
      (r : Runner) (tick : WorkflowTick)
      → r.tick_buffer ≡ tick ∷ []
      → IsOrderly r
      → IsOrderly (record r {
        tick_buffer = [];
        idle_check_pending = if is_idle_check tick then false else r.idle_check_pending;
      })
  unfolding idle_checks
  last-IsOrderly r tick e h = record {
    scheduled = record { sorted = h.scheduled.sorted; numbered = h.scheduled.numbered };
    heap_quiet = h.heap_quiet;
    pending =
        pending_after (is_idle_check tick) r.idle_check_pending
          (sym (ap idle_checks e) ∙ h.pending);
  }
    where
      pending_after :
          (idle flagged : Bool)
          → (if idle then 1 else 0) ≡ flag flagged
          → 0 ≡ flag (if idle then false else flagged)
      pending_after true flagged k = refl
      pending_after false flagged k = k

  rotated-IsOrderly :
      (r : Runner) (tick t : WorkflowTick) (rest : List WorkflowTick)
      → r.tick_buffer ≡ tick ∷ t ∷ rest
      → is_idle_check tick ≡ true
      → IsOrderly r
      → IsOrderly (record r { tick_buffer = (t ∷ rest) ++ tick ∷ [] })
  unfolding idle_checks
  rotated-IsOrderly r tick t rest e idle h = record {
    scheduled = record { sorted = h.scheduled.sorted; numbered = h.scheduled.numbered };
    heap_quiet = h.heap_quiet;
    pending =
        idle_checks-append (t ∷ rest) (tick ∷ [])
        ∙ omega (arith, front, h.pending, ap idle_checks e, alone);
  }
    where
      alone : idle_checks (tick ∷ []) ≡ 1
      alone = rw idle refl

      front : idle_checks (tick ∷ t ∷ rest) ≡ suc (idle_checks (t ∷ rest))
      front = rw idle refl

  taken-IsOrderly :
      (r : Runner) (tick t : WorkflowTick) (rest : List WorkflowTick)
      → r.tick_buffer ≡ tick ∷ t ∷ rest
      → is_idle_check tick ≡ false
      → IsOrderly r
      → IsOrderly (record r { tick_buffer = t ∷ rest })
  unfolding idle_checks
  taken-IsOrderly r tick t rest e other h = record {
    scheduled = record { sorted = h.scheduled.sorted; numbered = h.scheduled.numbered };
    heap_quiet = h.heap_quiet;
    pending = sym front ∙ sym (ap idle_checks e) ∙ h.pending;
  }
    where
      front : idle_checks (tick ∷ t ∷ rest) ≡ idle_checks (t ∷ rest)
      front = rw other refl

  pub IsOrderly-IsKept : IsKept w get_now run_id IsOrderly
  IsOrderly-IsKept = record {
    fresh = begun-IsOrderly;
    command = command-IsOrderly get_now;
    reduced = λ r state journal readings h. same-IsOrderly r _ refl refl refl refl h;
    last = last-IsOrderly;
    rotated = rotated-IsOrderly;
    taken = taken-IsOrderly;
    accepted = accept-IsOrderly;
  }

  -- In every runner that a run passes through, if no idle check comes from outside: the buffer holds
  -- one idle check where one is pending and none otherwise; the heap holds no idle check, and its
  -- entries are in the order of their times and, for equal times, of their scheduling, on numbers
  -- below the next one.
  pub Live-IsOrderly :
      (init_state : BrokerState) (start_event : Option Event) (timeout : Option ℤ) (r : Runner)
      → Live w get_now run_id init_state start_event timeout r
      → IsOrderly r
  Live-IsOrderly init_state start_event timeout r live =
      Live-kept w get_now run_id IsOrderly IsOrderly-IsKept init_state start_event timeout r live
