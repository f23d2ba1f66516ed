-- ===== src/Running.antt =====
-- The states that a run reaches from its start, through `_reduce_tick` of
-- workflows/runtime/control_loop/reduce.py.
use llama_agents.Prelude.{ℤ, String, ◌≡◌, refl, ◌∙◌, Option, List, [], ◌∷◌, All, values, Dict, ok}
use llama_agents.Types.{BrokerState, StepConfig, WorkflowCommand, WorkflowTick, World}
use llama_agents.Effects.{Reduced, Keeps}
use llama_agents.Reduce.{reduce_tick}
use llama_agents.Start.{Workflow, fresh_worker, fresh_workers, from_workflow}
use llama_agents.Capacity.Slots.{AllValid, IsValid, SlotsFit-nil}
use llama_agents.Capacity.Ticks.{reduce_tick-AllValid}
use llama_agents.OpenWork.{StreamsOpen, reduce_tick-StreamsOpen}
use llama_agents.Framed.Rest.{Continues, reduce_tick-Continues}

module _ (w : World) (run_id : Option String) where
  -- A state that the run is in after some ticks, each at some time.
  pub data Reaches (start : BrokerState) : BrokerState → Type 0 where
    started : Reaches start start
    ticked :
        (s s' : BrokerState) (tick : WorkflowTick) (now : ℤ) (commands : List WorkflowCommand)
        → Reaches start s
        → reduce_tick w run_id tick s now ≡ ok (s', commands)
        → Reaches start s'

  -- What a predicate that a tick keeps says of the state that the tick returns.
  kept :
      (P : BrokerState → Type 0) (m : Reduced) (s' : BrokerState) (commands : List WorkflowCommand)
      → Keeps P m
      → m ≡ ok (s', commands)
      → P s'
  kept P m s' commands h e = rw e at h

  fresh-IsValid : (steps : Dict StepConfig) → All IsValid (values (fresh_workers steps))
  unfolding fresh_workers fresh_worker
  fresh-IsValid [] = tt
  fresh-IsValid ((name, config) ∷ steps) = (SlotsFit-nil config.num_workers, fresh-IsValid steps)

  module _ (workflow : Workflow) where
    -- In every state that a run of a workflow reaches, by whatever ticks at whatever times, each step
    -- has at most as many executions as workers, on distinct worker ids below that number; every open
    -- stream has open work; and the configuration is the one that the workflow was given.
    pub from_workflow-Reaches :
        (s : BrokerState)
        → Reaches (from_workflow workflow) s
        → AllValid s × StreamsOpen s × (s.config ≡ (from_workflow workflow).config)
    unfolding from_workflow
    from_workflow-Reaches s started = (fresh-IsValid workflow.steps, tt, refl)
    from_workflow-Reaches s' (ticked s s'' tick now commands before e) =
        let (valid, open_work, same) = from_workflow-Reaches s before in
        (
          kept AllValid _ s' commands (reduce_tick-AllValid w now run_id tick s valid) e,
          kept StreamsOpen _ s' commands (reduce_tick-StreamsOpen w now run_id tick s open_work) e,
          (kept (Continues s) _ s' commands (reduce_tick-Continues w now run_id tick s) e).0 ∙ same,
        )
