-- ===== src/Accepting.antt =====
-- How many work items an event becomes (`count_accepting_steps` of
-- workflows/runtime/control_loop/streams.py) against the test by which
-- workflows/runtime/control_loop/reduce.py routes it.
use llama_agents.Prelude.{
  ℕ, suc, ◌+◌, ◌≡◌, refl, ap, ◌∙◌, arith, Bool, List, [], ◌∷◌, values, select, length, Bool-cases,
  inl, inr,
}
use llama_agents.Types.{Event, class_of, InternalStepConfig, BrokerState, World}
use llama_agents.Matching.{step_accepts_event, step_accepts_event-class_of}
use llama_agents.Streams.{count_accepting, count_accepting_steps}

module _ (w : World) (event : Event) where
  -- The test of the routing loop.
  abbrev pub accepts : InternalStepConfig → Bool
  accepts config = step_accepts_event w config.accept_event_subclasses event config.accepted_events

  one_more : (n : ℕ) → 1 + n ≡ suc n
  one_more n = omega arith

  none_more : (n : ℕ) → 0 + n ≡ n
  none_more n = omega arith

  count-select :
      (configs : List InternalStepConfig)
      → count_accepting w (class_of event) configs ≡ length (select accepts configs)
  unfolding count_accepting
  count-select [] = refl
  count-select (config ∷ configs) =
      let same =
        step_accepts_event-class_of w config.accept_event_subclasses event config.accepted_events in
      elim (Bool-cases (accepts config)) [
        | inl fits ↦
            rw (fits, ← same, fits)
              (ap (λ n. 1 + n) (count-select configs) ∙ one_more (length (select accepts configs)))
        | inr other ↦ rw (other, ← same, other) (none_more _ ∙ count-select configs)
      ]

  -- The work items that are counted for an event are as many as the steps that accept the event
  -- itself, by the test with which it is routed.
  pub count_accepting_steps-select :
      (s : BrokerState)
      → count_accepting_steps w s (class_of event) ≡ length (select accepts (values s.config.steps))
  unfolding count_accepting_steps
  count_accepting_steps-select s = count-select (values s.config.steps)
