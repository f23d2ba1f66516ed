-- ===== src/Looping/Rounds.antt =====
-- One round over the buffer of ticks (the inner loop of `run` of workflows/runtime/control_loop/runner.py).
use llama_agents.Prelude.{
  ℕ, suc, ◌≡◌, refl, sym, ap, subst, ◌∙◌, ℤ, String, true, false, Option, none, some, List, [], ◌∷◌,
  ◌++◌, if_case, arith, ok, raise,
}
use llama_agents.Types.{WorkflowTick, World, publish_event, workflow_idle}
use llama_agents.Reduce.{reduce_tick, process_idle_check_tick, fail_stuck}
use llama_agents.Stuck.{check_idle_state, detect_stuck_streams}
use llama_agents.Effects.{Reduced}
use llama_agents.Looping.Runner.{
  Runner, Progressed, going, finished, failed, by_reducer, cleanup_tasks, count_reading,
}
use llama_agents.Looping.Commands.{process_tick, process_commands, process_command}
use llama_agents.Looping.Turns.{is_idle_check, pop_tick, drain_buffer}
use llama_agents.Looping.Live.{Goes}
use llama_agents.Silence.Ticks.{is_result}
use llama_agents.Looping.Counting.{is_other}

module _ (P Q : Runner → Type 0) where
  pub Goes-both : (m : Progressed) → Goes P m → Goes Q m → Goes (λ r. P r × Q r) m
  Goes-both (going r) h k = (h, k)
  Goes-both (finished result r) h k = (h, k)
  Goes-both (failed e r) h k = tt

  pub Goes-map : (m : Progressed) → ((r : Runner) → P r → Q r) → Goes P m → Goes Q m
  Goes-map (going r) f h = f r h
  Goes-map (finished result r) f h = f r h
  Goes-map (failed e r) f h = tt

-- Where the loop goes on, nothing is in the buffer.
abbrev pub IsEmptied : Progressed → Type 0
IsEmptied (going r) = r.tick_buffer ≡ []
IsEmptied _ = Unit

module _ (w : World) (get_now : ℕ → ℤ) (run_id : Option String) where
  -- The loop over the buffer ends after so many rounds, and unless it left the run, then with
  -- nothing in the buffer.
  pub record Drains (r : Runner) : Type 0 where
    pub rounds : ℕ
    pub outcome : Progressed
    pub ends : drain_buffer w get_now run_id rounds r ≡ some outcome
    pub emptied : IsEmptied outcome

  pub emptied-Drains : (r : Runner) → r.tick_buffer ≡ [] → Drains r
  unfolding drain_buffer
  emptied-Drains r e = record { rounds = 0; outcome = going r; ends = rw e refl; emptied = e }

  -- How the loop goes on after a round.
  abbrev after_round : ℕ → Progressed → Option Progressed
  after_round fuel m = elim m [
    | going r' ↦ drain_buffer w get_now run_id fuel r'
    | finished result r' ↦ some (finished result r')
    | failed e r' ↦ some (failed e r')
  ]

  unrolled :
      (fuel : ℕ) (r : Runner) (tick : WorkflowTick) (rest : List WorkflowTick)
      → r.tick_buffer ≡ tick ∷ rest
      → drain_buffer w get_now run_id (suc fuel) r
        ≡ after_round fuel (pop_tick w get_now run_id tick rest r)
  unfolding drain_buffer
  unrolled fuel r tick rest e =
      ap
        (λ ticks. elim ticks as (λ _. Option Progressed) [
          | [] ↦ some (going r)
          | tick ∷ rest ↦ after_round fuel (pop_tick w get_now run_id tick rest r)
        ])
        e

  -- One round, and what its outcome needs.
  pub round-Drains :
      (r : Runner) (tick : WorkflowTick) (rest : List WorkflowTick)
      → r.tick_buffer ≡ tick ∷ rest
      → Goes Drains (pop_tick w get_now run_id tick rest r)
      → Drains r
  round-Drains r tick rest e h = after (pop_tick w get_now run_id tick rest r) refl h
    where
      after :
          (m : Progressed) → pop_tick w get_now run_id tick rest r ≡ m → Goes Drains m → Drains r
      after (going r') q k = record {
        rounds = suc k.rounds;
        outcome = k.outcome;
        ends = unrolled k.rounds r tick rest e ∙ ap (after_round k.rounds) q ∙ k.ends;
        emptied = k.emptied;
      }
      after (finished result r') q k = record {
        rounds = 1;
        outcome = finished result r';
        ends = unrolled 0 r tick rest e ∙ ap (after_round 0) q;
        emptied = tt;
      }
      after (failed error r') q k = record {
        rounds = 1;
        outcome = failed error r';
        ends = unrolled 0 r tick rest e ∙ ap (after_round 0) q;
        emptied = tt;
      }

  pub popped-Goes :
      (P : Runner → Type 0) (tick : WorkflowTick) (rest : List WorkflowTick) (r : Runner)
      → is_idle_check tick ≡ false
      → ((r' : Runner) → r'.tick_buffer ≡ rest → Goes P (process_tick get_now w run_id tick r'))
      → Goes P (pop_tick w get_now run_id tick rest r)
  unfolding pop_tick
  popped-Goes P tick [] r other k = k _ refl
  popped-Goes P tick (t ∷ rest) r other k =
      if_case (Goes P) (is_idle_check tick) _ _ (λ idle. absurd (ground (arith, idle, other)))
        (λ o. k _ refl)

pub idle_is : (tick : WorkflowTick) → is_idle_check tick ≡ true → tick ≡ WorkflowTick.idle_check
unfolding is_idle_check
idle_is (WorkflowTick.step_result tick) h = absurd (ground (arith, h))
idle_is (WorkflowTick.add_event tick) h = absurd (ground (arith, h))
idle_is WorkflowTick.cancel_run h = absurd (ground (arith, h))
idle_is WorkflowTick.idle_release h = absurd (ground (arith, h))
idle_is (WorkflowTick.publish event) h = absurd (ground (arith, h))
idle_is (WorkflowTick.timeout timeout) h = absurd (ground (arith, h))
idle_is (WorkflowTick.waiter_timeout step_id waiter_id) h = absurd (ground (arith, h))
idle_is WorkflowTick.idle_check h = refl
idle_is (WorkflowTick.wakeup due) h = absurd (ground (arith, h))

pub kinds :
    (tick : WorkflowTick)
    → is_idle_check tick ≡ false
    → is_result tick ≡ false
    → is_other tick ≡ true
unfolding is_idle_check
kinds (WorkflowTick.step_result tick) h k = absurd (ground (arith, k))
kinds (WorkflowTick.add_event tick) h k = refl
kinds WorkflowTick.cancel_run h k = refl
kinds WorkflowTick.idle_release h k = refl
kinds (WorkflowTick.publish event) h k = refl
kinds (WorkflowTick.timeout timeout) h k = refl
kinds (WorkflowTick.waiter_timeout step_id waiter_id) h k = refl
kinds WorkflowTick.idle_check h k = absurd (ground (arith, h))
kinds (WorkflowTick.wakeup due) h k = refl

module _ (w : World) (get_now : ℕ → ℤ) (run_id : Option String) where
  abbrev after_check : Runner → Reduced → Progressed
  after_check r m = elim m [
    | raise error ↦ failed (by_reducer error) (cleanup_tasks (count_reading r))
    | ok (state, commands) ↦ process_commands get_now commands (record r {
      state = state;
      journal = r.journal ++ (WorkflowTick.idle_check, get_now r.readings) ∷ [];
      readings = suc r.readings;
    })
  ]

  -- An idle check adds nothing to the buffer.
  pub checked-Goes :
      (r : Runner)
      → r.tick_buffer ≡ []
      → Goes (λ r'. r'.tick_buffer ≡ []) (process_tick get_now w run_id WorkflowTick.idle_check r)
  unfolding process_tick reduce_tick process_idle_check_tick fail_stuck process_commands
      process_command
  checked-Goes r e =
      if_case (λ m. Goes (λ r'. r'.tick_buffer ≡ []) (after_check r m)) (check_idle_state r.state) _
        _
        (λ idle.
          elim (detect_stuck_streams r.state)
            as (λ o.
              Goes (λ r'. r'.tick_buffer ≡ [])
                (after_check r (elim o as (λ _. Reduced) [
                  | none ↦ ok (r.state, publish_event workflow_idle ∷ [])
                  | some stuck ↦ fail_stuck r.state stuck
                ]))) [ none ↦ e | some stuck ↦ tt ])
        (λ busy. e)

  pub alone-Goes :
      (tick : WorkflowTick) (r : Runner)
      → is_idle_check tick ≡ true
      → Goes (λ r'. r'.tick_buffer ≡ []) (pop_tick w get_now run_id tick [] r)
  unfolding pop_tick is_idle_check
  alone-Goes tick r check =
      subst (λ t. Goes (λ r'. r'.tick_buffer ≡ []) (pop_tick w get_now run_id t [] r))
        (sym (idle_is tick check))
        (checked-Goes (record r { tick_buffer = []; idle_check_pending = false }) refl)
