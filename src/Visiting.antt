-- ===== src/Visiting.antt =====
-- The loops over all steps in the order of their names (`for step_name, worker_state in
-- sorted(state.workers.items(), ...)` in workflows/runtime/control_loop/reduce.py): each step is
-- visited, and what the body establishes for the step that it visits holds for all steps afterwards.
pub mod Once
use llama_agents.Prelude.{
  ◌≡◌, refl, subst, some-injective, ◌⊎◌, inl, inr, String, true, false, some, List, [], ◌∷◌, member,
  is_some, str_eq, eq_refl, Bool-cases, Option-cases, lookup, lookup-assign, sorted_keys,
  member-sorted_keys, ◌>>=◌, arith,
}
use llama_agents.Types.{BrokerState, InternalStepWorkerState}
use llama_agents.Effects.{
  Emitting, Reduced, Gives, Gives-▷, Gives-map, Gives-in_worker, ◌▷◌, done, in_worker, put_worker,
}
use llama_agents.StepResult.Threading.{get_worker}

-- `P` of every step.
abbrev pub EveryWorker : (InternalStepWorkerState → Type 0) → BrokerState → Type 0
EveryWorker P s =
    (name : String) (ws : InternalStepWorkerState) → lookup name s.workers ≡ some ws → P ws

-- A loop, its body, what the body asks of a step, and what it gives.
pub record Visits (H P : InternalStepWorkerState → Type 0)
    (body : String → InternalStepWorkerState → Emitting InternalStepWorkerState)
    (loop : List String → BrokerState → Reduced) : Type 0 where
  pub at_end : (s : BrokerState) → loop [] s ≡ done s
  pub at_step :
      (name : String) (names : List String) (s : BrokerState)
      → loop (name ∷ names) s
        ≡ (get_worker name s >>= λ ws. in_worker name s (body name ws) ▷ loop names)
  pub establishes : (name : String) (ws : InternalStepWorkerState) → H ws → Gives P (body name ws)
  pub again : (ws : InternalStepWorkerState) → P ws → H ws

module _ (H P : InternalStepWorkerState → Type 0)
    (body : String → InternalStepWorkerState → Emitting InternalStepWorkerState)
    (loop : List String → BrokerState → Reduced) (visits : Visits H P body loop) where
  -- The steps that are still to be visited.
  record Remaining (names : List String) (s : BrokerState) : Type 0 where
    allowed : EveryWorker H s
    present : (j : String) → member names j ≡ true → is_some (lookup j s.workers) ≡ true
    visited :
        (j : String) (ws : InternalStepWorkerState)
        → lookup j s.workers ≡ some ws
        → (member names j ≡ true) ⊎ P ws

  after-Remaining :
      (name : String) (names : List String) (s : BrokerState) (ws : InternalStepWorkerState)
      → Remaining (name ∷ names) s
      → P ws
      → Remaining names (put_worker name ws s)
  unfolding put_worker
  after-Remaining name names s ws r p = record {
    allowed = λ j x e. elim (Bool-cases (str_eq name j)) [
      | inl same ↦ visits.again x (subst P (some-injective ws x (here j x same e)) p)
      | inr other ↦ r.allowed j x (there j x other e)
    ];
    present = λ j m. elim (Bool-cases (str_eq name j)) [
      | inl same ↦ rw (lookup-assign name j ws s.workers, same) refl
      | inr other ↦ rw (lookup-assign name j ws s.workers, other) (r.present j (ground arith))
    ];
    visited = λ j x e. elim (Bool-cases (str_eq name j)) [
      | inl same ↦ inr (subst P (some-injective ws x (here j x same e)) p)
      | inr other ↦ elim (r.visited j x (there j x other e)) [
        | inl m ↦ inl (ground arith)
        | inr done ↦ inr done
      ]
    ];
  }
    where
      here :
          (j : String) (x : InternalStepWorkerState)
          → str_eq name j ≡ true
          → lookup j (put_worker name ws s).workers ≡ some x
          → some ws ≡ some x
      here j x same e = rw same at (rw (lookup-assign name j ws s.workers) at e)

      there :
          (j : String) (x : InternalStepWorkerState)
          → str_eq name j ≡ false
          → lookup j (put_worker name ws s).workers ≡ some x
          → lookup j s.workers ≡ some x
      there j x other e = rw other at (rw (lookup-assign name j ws s.workers) at e)

  loop-Remaining :
      (names : List String) (s : BrokerState)
      → Remaining names s
      → Gives (Remaining []) (loop names s)
  unfolding get_worker
  loop-Remaining [] s r = rw (visits.at_end s) r
  loop-Remaining (name ∷ names) s r =
      rw (visits.at_step name names s) (elim (Option-cases (lookup name s.workers)) [
        | inl missing ↦
            let bad : false ≡ true =
              rw missing at (r.present name (ground (arith, eq_refl name))) in
            cc
        | inr (ws, e) ↦ rw e (
            Gives-▷ (Remaining names) (Remaining []) (in_worker name s (body name ws)) (loop names)
              (Gives-in_worker P (Remaining names) name s (body name ws)
                (visits.establishes name ws (r.allowed name ws e))
                (λ ws' p. after-Remaining name names s ws' r p))
              (loop-Remaining names))
      ])

  -- The loop over all steps returns.
  pub loop-EveryWorker :
      (s : BrokerState) → EveryWorker H s → Gives (EveryWorker P) (loop (sorted_keys s.workers) s)
  loop-EveryWorker s h =
      Gives-map (Remaining []) (EveryWorker P) _
        (λ s' r name ws e. elim (r.visited name ws e) [ inl m ↦ cc | inr p ↦ p ])
        (loop-Remaining (sorted_keys s.workers) s (record {
          allowed = h;
          present = λ j m. rw (member-sorted_keys s.workers j) at m;
          visited = λ j ws e. inl (rw (member-sorted_keys s.workers j, e) refl);
        }))
