-- ===== src/Looping/Emptying.antt =====
-- The buffer of ticks is emptied (the inner loop of `run` of workflows/runtime/control_loop/runner.py).
use llama_agents.Prelude.{
  ℕ, zero, suc, ◌≡◌, refl, sym, ap, ◌∙◌, ℤ, String, Bool, true, false, Option, List, [], ◌∷◌, ◌++◌,
  if_case, arith,
}
use llama_agents.Types.{BrokerState, Event, WorkflowTick, World}
use llama_agents.Looping.Runner.{Runner}
use llama_agents.Looping.Turns.{is_idle_check, pop_tick}
use llama_agents.Looping.Live.{Live, Goes, pop-Goes}
use llama_agents.Looping.IdleChecks.{idle_checks, flag, IsOrderly}
use llama_agents.Looping.Orderly.{IsOrderly-IsKept, Live-IsOrderly}
use llama_agents.Silence.Ticks.{is_result, reduce_tick-IsSilent}
use llama_agents.Looping.Counting.{
  ticks_of, is_other, appended, counted, not_counted, no_results, no_others, process_tick-Counted,
}
use llama_agents.Looping.Rounds.{
  Goes-both, Goes-map, Drains, emptied-Drains, round-Drains, popped-Goes, alone-Goes, idle_is,
  kinds,
}

-- Of two ticks in an orderly buffer, at most one is an idle check.
one_check :
    (flagged : Bool) (tick t : WorkflowTick) (rest : List WorkflowTick)
    → is_idle_check tick ≡ true
    → idle_checks (tick ∷ t ∷ rest) ≡ flag flagged
    → is_idle_check t ≡ false
unfolding idle_checks
one_check true tick t rest h e = ground (arith, h, e)
one_check false tick t rest h e = ground (arith, h, e)

module _ (w : World) (get_now : ℕ → ℤ) (run_id : Option String) where
  -- A first tick that is no idle check: its results, or the number of the others, go down.
  module _ (m k : ℕ)
      (below : (r : Runner)
        → IsOrderly r
        → suc (ticks_of is_result r.tick_buffer) ≡ m
        → Drains w get_now run_id r)
      (lower : (r : Runner)
        → IsOrderly r
        → ticks_of is_result r.tick_buffer ≡ m
        → suc (ticks_of is_other r.tick_buffer) ≡ k
        → Drains w get_now run_id r) where
    module _ (r : Runner) (tick : WorkflowTick) (rest : List WorkflowTick)
        (e : r.tick_buffer ≡ tick ∷ rest) (no_check : is_idle_check tick ≡ false) (o : IsOrderly r)
        (results : ticks_of is_result r.tick_buffer ≡ m)
        (others : ticks_of is_other r.tick_buffer ≡ k) where
      orderly : Goes IsOrderly (pop_tick w get_now run_id tick rest r)
      orderly =
          pop-Goes w get_now run_id IsOrderly (IsOrderly-IsKept w get_now run_id) tick rest r e o

      results_left :
          Goes
            (λ r'. ticks_of is_result r'.tick_buffer ≡ ticks_of is_result rest)
            (pop_tick w get_now run_id tick rest r)
      results_left = popped-Goes w get_now run_id _ tick rest r no_check (λ r' b.
          process_tick-Counted get_now is_result _ refl w run_id tick r' (no_results _)
            (ap (ticks_of is_result) b))

      others_left :
          is_result tick ≡ false
          → Goes
              (λ r'. ticks_of is_other r'.tick_buffer ≡ ticks_of is_other rest)
              (pop_tick w get_now run_id tick rest r)
      others_left h = popped-Goes w get_now run_id _ tick rest r no_check (λ r' b.
          process_tick-Counted get_now is_other _ refl w run_id tick r'
            (no_others is_other _
              (reduce_tick-IsSilent w (get_now r'.readings) run_id tick r'.state h))
            (ap (ticks_of is_other) b))

      by_result : is_result tick ≡ true → Drains w get_now run_id r
      by_result h = round-Drains w get_now run_id r tick rest e (
          Goes-map
            (λ r'. IsOrderly r' × (ticks_of is_result r'.tick_buffer ≡ ticks_of is_result rest)) _ _
            (λ r' (o', left).
              below r' o'
                (ap suc left ∙ sym (counted is_result tick rest h r.tick_buffer e) ∙ results))
            (Goes-both _ _ _ orderly results_left))

      by_other : is_result tick ≡ false → Drains w get_now run_id r
      by_other h = round-Drains w get_now run_id r tick rest e (
          Goes-map
            (λ r'.
              IsOrderly r'
              × ((ticks_of is_result r'.tick_buffer ≡ ticks_of is_result rest)
                  × (ticks_of is_other r'.tick_buffer ≡ ticks_of is_other rest)))
            _ _
            (λ r' (o', (left, left')).
              lower r' o' (left ∙ sym (not_counted is_result tick rest h r.tick_buffer e) ∙ results)
                (ap suc left'
                  ∙ sym (counted is_other tick rest (kinds tick no_check h) r.tick_buffer e)
                  ∙ others))
            (Goes-both _ _ _ orderly (Goes-both _ _ _ results_left (others_left h))))

      first-Drains : Drains w get_now run_id r
      first-Drains =
          if_case {0, 0} {A = Unit} (λ u. Drains w get_now run_id r) (is_result tick) tt tt
            by_result by_other

    -- An idle check is put behind the others, or empties the buffer.
    check-Drains :
        (r : Runner) (tick : WorkflowTick) (rest : List WorkflowTick)
        → r.tick_buffer ≡ tick ∷ rest
        → is_idle_check tick ≡ true
        → IsOrderly r
        → ticks_of is_result r.tick_buffer ≡ m
        → ticks_of is_other r.tick_buffer ≡ k
        → Drains w get_now run_id r
    unfolding pop_tick
    check-Drains r tick [] e check o results others = round-Drains w get_now run_id r tick [] e (
        Goes-map _ _ _ (emptied-Drains w get_now run_id) (alone-Goes w get_now run_id tick r check))
    check-Drains r tick (t ∷ rest) e check o results others =
        round-Drains w get_now run_id r tick (t ∷ rest) e (
          if_case (Goes (Drains w get_now run_id)) (is_idle_check tick) _ _
            (λ idle.
              first-Drains (record r { tick_buffer = (t ∷ rest) ++ tick ∷ [] }) t
                (rest ++ tick ∷ []) refl
                (one_check r.idle_check_pending tick t rest check
                  (ap idle_checks (sym e) ∙ o.pending))
                ((IsOrderly-IsKept w get_now run_id).rotated r tick t rest e check o)
                (moved is_result (ap is_result (idle_is tick check)) ∙ results)
                (moved is_other (ap is_other (idle_is tick check)) ∙ others))
            (λ no_check. absurd (ground (arith, check, no_check))))
      where
        moved :
            (p : WorkflowTick → Bool)
            → p tick ≡ false
            → ticks_of p ((t ∷ rest) ++ tick ∷ []) ≡ ticks_of p r.tick_buffer
        moved p h =
            appended p (t ∷ rest) tick h ∙ sym (not_counted p tick (t ∷ rest) h r.tick_buffer e)

    buffer-Drains :
        (r : Runner)
        → IsOrderly r
        → ticks_of is_result r.tick_buffer ≡ m
        → ticks_of is_other r.tick_buffer ≡ k
        → Drains w get_now run_id r
    buffer-Drains r o results others = on_buffer r.tick_buffer refl
      where
        on_buffer : (ticks : List WorkflowTick) → r.tick_buffer ≡ ticks → Drains w get_now run_id r
        on_buffer [] e = emptied-Drains w get_now run_id r e
        on_buffer (tick ∷ rest) e =
            if_case {0, 0} {A = Unit} (λ u. Drains w get_now run_id r) (is_idle_check tick) tt tt
              (λ check. check-Drains r tick rest e check o results others)
              (λ no_check. first-Drains r tick rest e no_check o results others)

  by_others :
      (m k : ℕ)
      → ((r : Runner)
          → IsOrderly r
          → suc (ticks_of is_result r.tick_buffer) ≡ m
          → Drains w get_now run_id r)
      → (r : Runner) → IsOrderly r
      → ticks_of is_result r.tick_buffer ≡ m
      → ticks_of is_other r.tick_buffer ≡ k
      → Drains w get_now run_id r
  by_others m zero below = buffer-Drains m zero below (λ r o g h. absurd (omega (arith, h)))
  by_others m (suc k) below =
      buffer-Drains m (suc k) below (λ r o g h. by_others m k below r o g (omega (arith, h)))

  by_results :
      (m : ℕ) (r : Runner)
      → IsOrderly r
      → ticks_of is_result r.tick_buffer ≡ m
      → Drains w get_now run_id r
  by_results zero r o g = by_others zero _ (λ r o g. absurd (omega (arith, g))) r o g refl
  by_results (suc m) r o g =
      by_others (suc m) _ (λ r o g. by_results m r o (omega (arith, g))) r o g refl

  -- In every runner that a run passes through, if no idle check comes from outside, the loop over the
  -- buffer ends after some number of rounds: with nothing in the buffer, or with the run's result or
  -- an exception.
  pub drain_buffer-Drains :
      (init_state : BrokerState) (start_event : Option Event) (timeout : Option ℤ) (r : Runner)
      → Live w get_now run_id init_state start_event timeout r
      → Drains w get_now run_id r
  drain_buffer-Drains init_state start_event timeout r live =
      by_results _ r (Live-IsOrderly w get_now run_id init_state start_event timeout r live) refl
