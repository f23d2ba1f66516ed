-- ===== src/Saving/Twice.antt =====
-- Persisting a state that was loaded (`to_serialized` and `from_serialized` of
-- workflows/runtime/types/internal_state.py) loses nothing more.
use llama_agents.Prelude.{
  ◌≡◌, refl, sym, ap, ◌∙◌, Option, none, some, List, [], ◌∷◌, ◌++◌, map, map-append, append-nil,
  All, Dict, keys, values, ok,
}
use llama_agents.Types.{
  World, Event, BrokerState, CollectionReleasePayload, EventAttempt, InternalStepWorkerState,
  StepWorkerWaiter, StepConfig,
}
use llama_agents.Reduce.{rewound_attempt}
use llama_agents.Start.{Workflow}
use llama_agents.Saving.Serialized.{Serializer}
use llama_agents.Saving.Writing.{map_values, type_name, to_serialized}
use llama_agents.Saving.Reading.{Loaded, from_serialized}
use llama_agents.Saving.Restored.{
  trigger, settled, settled_waiter, restored, restored_state, Matches, Distinct, IsFaithful,
  Importable,
}
use llama_agents.Saving.Returning.{from_serialized-to_serialized}

ok-injective : {A : Type 0} → (a b : A) → Path (Loaded A) (ok a) (ok b) → a ≡ b
ok-injective a b e = cc

trigger_twice :
    (p : Option CollectionReleasePayload) (e : Event) → trigger p (trigger p e) ≡ trigger p e
trigger_twice none e = refl
trigger_twice (some p) e = refl

settled_twice : (a : EventAttempt) → settled (settled a) ≡ settled a
settled_twice a = rw (trigger_twice a.collection_release_payload a.event) refl

settled_waiter_twice : (x : StepWorkerWaiter) → settled_waiter (settled_waiter x) ≡ settled_waiter x
settled_waiter_twice x = rw (trigger_twice x.collection_release_payload x.event) refl

module _ {A B : Type 0} (f : B → B) (g : A → B) (same : (a : A) → f (g a) ≡ g a) where
  map_twice : (xs : List A) → map f (map g xs) ≡ map g xs
  map_twice [] = refl
  map_twice (x ∷ xs) = rw (same x, map_twice xs) refl

restored_twice : (ws : InternalStepWorkerState) → restored (restored ws) ≡ restored ws
restored_twice ws =
    rw
      (
        append-nil (
            map settled
              (map settled ws.queue ++ map (λ p. settled (rewound_attempt p)) ws.in_progress)),
        map-append settled (map settled ws.queue)
            (map (λ p. settled (rewound_attempt p)) ws.in_progress),
        map_twice settled settled settled_twice ws.queue,
        map_twice settled (λ p. settled (rewound_attempt p))
            (λ p. settled_twice (rewound_attempt p)) ws.in_progress,
        map_twice settled_waiter settled_waiter settled_waiter_twice ws.collected_waiters,
      )
      refl

workers_twice :
    (d : Dict InternalStepWorkerState)
    → map_values restored (map_values restored d) ≡ map_values restored d
unfolding map_values
workers_twice [] = refl
workers_twice ((k, ws) ∷ d) = rw (restored_twice ws, workers_twice d) refl

Matches-restored :
    (steps : Dict StepConfig) (d : Dict InternalStepWorkerState)
    → Matches steps d
    → Matches steps (map_values restored d)
unfolding map_values
Matches-restored [] [] m = tt
Matches-restored [] (_ ∷ _) m = m
Matches-restored (_ ∷ _) [] m = m
Matches-restored ((name, config) ∷ steps) ((k, ws) ∷ d) m = (m.0, m.1, Matches-restored steps d m.2)

keys-restored : (d : Dict InternalStepWorkerState) → keys (map_values restored d) ≡ keys d
unfolding map_values
keys-restored [] = refl
keys-restored ((k, ws) ∷ d) = ap (λ ks. k ∷ ks) (keys-restored d)

same_twice :
    (workflow : Workflow) (s : BrokerState)
    → restored_state workflow (restored_state workflow s) ≡ restored_state workflow s
same_twice workflow s = rw (workers_twice s.workers) refl

module _ {Value : Type 0} (w : World) (serializer : Serializer Value) where
  Importable-waiters :
      (xs : List StepWorkerWaiter)
      → All
          (λ x.
            serializer.import_event_type (type_name w x.waiting_for_event) ≡ ok x.waiting_for_event)
          xs
      → All
          (λ x.
            serializer.import_event_type (type_name w x.waiting_for_event) ≡ ok x.waiting_for_event)
          (map settled_waiter xs)
  Importable-waiters [] i = tt
  Importable-waiters (x ∷ xs) i = (i.0, Importable-waiters xs i.1)

  Importable-restored :
      (d : Dict InternalStepWorkerState)
      → All (Importable w serializer) (values d)
      → All (Importable w serializer) (values (map_values restored d))
  unfolding map_values
  Importable-restored [] i = tt
  Importable-restored ((k, ws) ∷ d) i =
      (Importable-waiters ws.collected_waiters i.0, Importable-restored d i.1)

  -- What was read from a persisted state of the workflow is written and read again without a change.
  pub from_serialized_again :
      (workflow : Workflow) (s loaded : BrokerState)
      → IsFaithful serializer
      → Matches workflow.steps s.workers
      → Distinct (keys s.workers)
      → All (Importable w serializer) (values s.workers)
      → from_serialized serializer (to_serialized w serializer s) workflow ≡ ok loaded
      → from_serialized serializer (to_serialized w serializer loaded) workflow ≡ ok loaded
  from_serialized_again workflow s loaded faithful m d i e =
      let back : restored_state workflow s ≡ loaded =
        ok-injective _ _
          (sym (from_serialized-to_serialized w serializer faithful workflow s m d i) ∙ e) in
      ap (λ x. from_serialized serializer (to_serialized w serializer x) workflow) (sym back)
      ∙ from_serialized-to_serialized w serializer faithful workflow (restored_state workflow s)
          (Matches-restored workflow.steps s.workers m) (rw (keys-restored s.workers) d)
          (Importable-restored s.workers i)
      ∙ ap ok (same_twice workflow s)
      ∙ ap ok back
