-- ===== src/Visiting/Once.antt =====
-- A loop over all steps visits each step once: what its body makes of the step that it visits is what
-- becomes of that step.
use llama_agents.Prelude.{
  ◌≡◌, refl, sym, subst, ◌∙◌, ap, inl, inr, String, true, false, some, some-injective, List, [],
  ◌∷◌, member, is_some, str_eq, eq_iff, eq_refl, Bool-cases, Option-cases, lookup, lookup-assign,
  sorted_keys, member-sorted_keys, ◌>>=◌, arith, Unique, Distinct, sorted_keys-Distinct, Dict,
}
use llama_agents.Types.{BrokerState, InternalStepWorkerState}
use llama_agents.Effects.{
  Emitting, Reduced, Gives, Gives-▷, Gives-map, Gives-in_worker, ◌▷◌, in_worker, put_worker, done,
}
use llama_agents.StepResult.Threading.{get_worker}

abbrev pub Workers : Type 0
Workers = Dict InternalStepWorkerState

-- `R` of what each step was and what it is.
abbrev pub EachStep :
    (InternalStepWorkerState → InternalStepWorkerState → Type 0) → Workers → BrokerState → Type 0
EachStep R d s =
    (name : String) (ws : InternalStepWorkerState)
    → lookup name d ≡ some ws
    → (ws' : InternalStepWorkerState) × (lookup name s.workers ≡ some ws') × R ws ws'

module _ (R : InternalStepWorkerState → InternalStepWorkerState → Type 0)
    (body : String → InternalStepWorkerState → Emitting InternalStepWorkerState)
    (loop : List String → BrokerState → Reduced) (at_end : (s : BrokerState) → loop [] s ≡ done s)
    (at_step : (name : String) (names : List String) (s : BrokerState)
      → loop (name ∷ names) s
        ≡ (get_worker name s >>= λ ws. in_worker name s (body name ws) ▷ loop names))
    (d : Workers)
    (makes : (name : String) (ws : InternalStepWorkerState)
      → lookup name d ≡ some ws
      → Gives (R ws) (body name ws)) where
  -- The steps that are still to be visited are as they were.
  record Ahead (names : List String) (s : BrokerState) : Type 0 where
    distinct : Distinct names
    present : (j : String) → member names j ≡ true → is_some (lookup j d) ≡ true
    waiting :
        (j : String) (ws : InternalStepWorkerState)
        → lookup j d ≡ some ws
        → member names j ≡ true
        → lookup j s.workers ≡ some ws
    visited :
        (j : String) (ws : InternalStepWorkerState)
        → lookup j d ≡ some ws
        → member names j ≡ false
        → (ws' : InternalStepWorkerState) × (lookup j s.workers ≡ some ws') × R ws ws'

  after-Ahead :
      (name : String) (names : List String) (s : BrokerState) (ws ws' : InternalStepWorkerState)
      → lookup name d ≡ some ws
      → Ahead (name ∷ names) s
      → R ws ws'
      → Ahead names (put_worker name ws' s)
  unfolding put_worker
  after-Ahead name names s ws ws' e a r = record {
    distinct = a.distinct.1;
    present = λ j m. a.present j (ground (arith, m));
    waiting = λ j x f m. elim (Bool-cases (str_eq name j)) [
      | inl same ↦ absurd (twice j same m)
      | inr other ↦
          lookup-assign name j ws' s.workers ∙ rw other (a.waiting j x f (ground (arith, m)))
    ];
    visited = λ j x f m. elim (Bool-cases (str_eq name j)) [
      | inl same ↦ (
        ws',
        lookup-assign name j ws' s.workers ∙ rw same refl,
        subst (λ y. R y ws')
            (some-injective ws x (sym e ∙ ap (λ k. lookup k d) ((eq_iff name j).0 same) ∙ f)) r,
      )
      | inr other ↦
          let (y, found, q) = a.visited j x f (ground (arith, other, m)) in
          (y, lookup-assign name j ws' s.workers ∙ rw other found, q)
    ];
  }
    where
      twice : (j : String) → str_eq name j ≡ true → member names j ≡ true → ⊥
      twice j same m =
          let here = ap (member names) ((eq_iff name j).0 same) in
          absurd (ground (arith, here, m, a.distinct.0))

  loop-Ahead :
      (names : List String) (s : BrokerState) → Ahead names s → Gives (Ahead []) (loop names s)
  unfolding get_worker
  loop-Ahead [] s a = rw (at_end s) a
  loop-Ahead (name ∷ names) s a = rw (at_step name names s) (elim (Option-cases (lookup name d)) [
    | inl missing ↦
        let bad : false ≡ true = rw missing at (a.present name (ground (arith, eq_refl name))) in cc
    | inr (ws, e) ↦ rw (a.waiting name ws e (ground (arith, eq_refl name))) (
        Gives-▷ (Ahead names) (Ahead []) (in_worker name s (body name ws)) (loop names)
          (Gives-in_worker (R ws) (Ahead names) name s (body name ws) (makes name ws e)
            (λ ws' r. after-Ahead name names s ws ws' e a r))
          (loop-Ahead names))
  ])

-- The loop over all steps of a state returns, and `R` holds for each.
pub loop-EachStep :
    (R : InternalStepWorkerState → InternalStepWorkerState → Type 0)
    (body : String → InternalStepWorkerState → Emitting InternalStepWorkerState)
    (loop : List String → BrokerState → Reduced)
    → ((s : BrokerState) → loop [] s ≡ done s)
    → ((name : String) (names : List String) (s : BrokerState)
        → loop (name ∷ names) s
          ≡ (get_worker name s >>= λ ws. in_worker name s (body name ws) ▷ loop names))
    → (s : BrokerState) → Unique s.workers
    → ((name : String) (ws : InternalStepWorkerState)
        → lookup name s.workers ≡ some ws
        → Gives (R ws) (body name ws))
    → Gives (EachStep R s.workers) (loop (sorted_keys s.workers) s)
loop-EachStep R body loop at_end at_step s u makes =
    Gives-map (Ahead R body loop at_end at_step s.workers makes []) (EachStep R s.workers) _
      (λ s' a name ws e. a.visited name ws e refl)
      (loop-Ahead R body loop at_end at_step s.workers makes (sorted_keys s.workers) s (record {
        distinct = sorted_keys-Distinct s.workers u;
        present = λ j m. rw (member-sorted_keys s.workers j) at m;
        waiting = λ j ws e m. e;
        visited = λ j ws e m.
            let there = member-sorted_keys s.workers j in
            let bad : true ≡ false = rw (there, e) at m in cc;
      }))
