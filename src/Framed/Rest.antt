-- ===== src/Framed/Rest.antt =====
-- Predicates of the parts of a state that the accounting of streams leaves alone
-- (workflows/runtime/control_loop/streams.py): the configuration and the counters of ids.
use llama_agents.Prelude.{
  ◌==◌, ℤ, pos, leb_ℤ, ◌+ℤ◌, ◌≤◌, ◌≡◌, refl, inl, inr, String, Option, none, some, List, [], ◌∷◌,
  lookup, last?, is_none, get_or, Bool-cases, Option-cases, if◌then◌else◌, Dict, arith,
}
use llama_agents.Types.{
  BrokerState, CollectionBinding, CollectionReleaseState, CollectionStreamInstance, Event,
  InternalStepWorkerState, World, WorkflowTick,
}
use llama_agents.Effects.{
  Emitting, Keeps, Keeps-▷, Keeps-if, Keeps-in_worker, done, in_worker, put_worker,
}
use llama_agents.Streams.{
  release_on_close, release_state_key, new_release_state, release_binding, close_binding,
  close_bindings, close_collection_stream, adjust_open_work_items, clear_collection_state,
}
use llama_agents.StepResult.{open_child_stream, successors}
use llama_agents.StepResult.Threading.{Scope}
use llama_agents.Reduce.{reduce_tick}
use llama_agents.Framed.Interface.{StateInvariant, Keeps-any}
use llama_agents.Framed.Ticks.{reduce_tick-Q}

-- What the accounting writes.
record Ignores (Q : BrokerState → Type 0) : Type 0 where
  workers :
      (s : BrokerState) (workers : Dict InternalStepWorkerState)
      → Q s
      → Q (record s { workers = workers })
  releases :
      (s : BrokerState) (releases : Dict CollectionReleaseState)
      → Q s
      → Q (record s { collection_release_states = releases })
  streams :
      (s : BrokerState) (streams : Dict CollectionStreamInstance)
      → Q s
      → Q (record s { streams = streams })

module _ (w : World) (now : ℤ) (Q : BrokerState → Type 0) (ignores : Ignores Q) where
  worker-Q :
      (name : String) (s : BrokerState) (m : Emitting InternalStepWorkerState)
      → Q s
      → Keeps Q (in_worker name s m)
  unfolding put_worker
  worker-Q name s m q =
      Keeps-in_worker (λ ws. Unit) Q name s m (Keeps-any m) (λ ws u. ignores.workers s _ q)

  close_binding-Q :
      (stream_id : String) (scope_path : List String) (binding : CollectionBinding)
      (s : BrokerState)
      → Q s
      → Keeps Q (close_binding w now stream_id scope_path binding s)
  unfolding close_binding release_binding
  close_binding-Q stream_id scope_path binding s q =
      elim (Option-cases (lookup binding.target_step s.workers)) [
        | inl missing ↦ rw (missing, close_binding) q
        | inr (ws, e) ↦
            rw (e, close_binding)
              (Keeps-if Q (is_none ws.config.collection_param) (done s)
                (release_binding w now stream_id scope_path binding ws s) (λ skip. q)
                (λ collects. release ws))
      ]
    where
      release :
          (ws : InternalStepWorkerState)
          → Keeps Q (release_binding w now stream_id scope_path binding ws s)
      release ws =
          let key = release_state_key stream_id binding.id in
          let release_state =
            get_or (lookup key s.collection_release_states) (new_release_state stream_id binding) in
          elim (Option-cases (release_on_close binding release_state)) [
            | inl nothing ↦ rw (nothing, release_binding) (ignores.releases s _ q)
            | inr (events, e) ↦
                rw (e, release_binding) (worker-Q binding.target_step _ _ (ignores.releases s _ q))
          ]

  close_bindings-Q :
      (stream_id : String) (scope_path : List String) (bindings : List CollectionBinding)
      (s : BrokerState)
      → Q s
      → Keeps Q (close_bindings w now stream_id scope_path bindings s)
  unfolding close_bindings
  close_bindings-Q stream_id scope_path [] s q = q
  close_bindings-Q stream_id scope_path (binding ∷ bindings) s q =
      Keeps-▷ Q Q _ _ (close_binding-Q stream_id scope_path binding s q)
        (close_bindings-Q stream_id scope_path bindings)

  close-Q :
      (stream_id : String) (s : BrokerState)
      → Q s
      → Keeps Q (close_collection_stream w now stream_id s)
  unfolding close_collection_stream
  close-Q stream_id s q = elim (Option-cases (lookup stream_id s.streams)) [
    | inl missing ↦ rw (missing, close_collection_stream) q
    | inr (stream, e) ↦
        rw (e, close_collection_stream)
          (close_bindings-Q stream_id stream.scope_path _ _ (ignores.streams s _ q))
  ]

  adjust-Q :
      (stream_id : Option String) (delta : ℤ) (s : BrokerState)
      → Q s
      → Keeps Q (adjust_open_work_items w now stream_id delta s)
  unfolding adjust_open_work_items
  adjust-Q none delta s q = q
  adjust-Q (some stream_id) delta s q = elim (Option-cases (lookup stream_id s.streams)) [
    | inl missing ↦ rw (missing, adjust_open_work_items) q
    | inr (stream, e) ↦
        let counted = ignores.streams s _ q in
        elim (Bool-cases (leb_ℤ (stream.open_work_items +ℤ delta) (pos 0))) [
          | inl closes ↦ rw (e, adjust_open_work_items, closes) (close-Q stream_id _ counted)
          | inr stays ↦ rw (e, adjust_open_work_items, stays) counted
        ]
  ]

  open-Q :
      (step_name : String) (scope : Scope) (emitted : List Event) (stream_id : String)
      (s : BrokerState)
      → Q s
      → Keeps Q (open_child_stream w now step_name scope emitted stream_id s)
  unfolding open_child_stream
  open-Q step_name scope emitted stream_id s q =
      let seed = successors w s emitted in
      Keeps-▷ Q Q _
        (λ s'. if seed == 0 then close_collection_stream w now stream_id s' else done s')
        (adjust-Q (last? scope.trigger_stack) _ _ (ignores.streams s _ q))
        (λ s' q'.
          Keeps-if Q (seed == 0) (close_collection_stream w now stream_id s') (done s')
            (λ empty. close-Q stream_id s' q') (λ seeded. q'))

-- The same configuration, and counters of ids that are no smaller.
abbrev pub Continues : BrokerState → BrokerState → Type 0
Continues s s' =
    (s'.config ≡ s.config) × (s.work_item_seq ≤ s'.work_item_seq) × (s.stream_seq ≤ s'.stream_seq)

Continues-Ignores : (s : BrokerState) → Ignores (Continues s)
Continues-Ignores s = record {
  workers = λ s' workers q. q;
  releases = λ s' releases q. q;
  streams = λ s' streams q. q;
}

module _ (w : World) (now : ℤ) where
  continuing : (s : BrokerState) → StateInvariant w now (Continues s)
  unfolding clear_collection_state
  continuing s = record {
    with_workers = λ s' workers q. q;
    with_running = λ s' b q. q;
    with_releases = λ s' releases q. q;
    next_work_item = λ s' (same, items, streams). (same, omega arith, streams);
    next_stream = λ s' (same, items, streams). (same, items, omega arith);
    cleared = λ s' q. q;
    adjusted = adjust-Q w now (Continues s) (Continues-Ignores s);
    opened = open-Q w now (Continues s) (Continues-Ignores s);
  }

  -- A tick that returns keeps the configuration of the run, and neither the counter that work item
  -- ids are minted from nor the one that stream ids are minted from ever goes back.
  pub reduce_tick-Continues :
      (run_id : Option String) (tick : WorkflowTick) (s : BrokerState)
      → Keeps (Continues s) (reduce_tick w run_id tick s now)
  reduce_tick-Continues run_id tick s =
      reduce_tick-Q w now (Continues s) (continuing s) run_id tick s
        (refl, omega arith, omega arith)
