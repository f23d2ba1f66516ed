-- ===== src/Saving/Returning.antt =====
-- The round trip of a whole broker state (`to_serialized` and `from_serialized` of
-- workflows/runtime/types/internal_state.py).
use llama_agents.Prelude.{
  String, false, ◌≡◌, refl, sym, ap, ◌∙◌, none, some, List, [], ◌∷◌, ◌++◌, All, Dict, keys, values,
  str_eq, lookup, assign, ok, append_assoc, eq_refl, Bool-cases, inl, inr,
}
use llama_agents.Types.{
  World, BrokerState, CollectionReleaseState, CollectionStreamInstance, InternalStepWorkerState,
  StepConfig,
}
use llama_agents.Start.{Workflow, from_workflow, fresh_workers, fresh_worker}
use llama_agents.Saving.Serialized.{Serializer, SerializedStepWorkerState}
use llama_agents.Saving.Writing.{
  map_values, serialize_worker, serialize_stream, serialize_release, to_serialized,
}
use llama_agents.Saving.Reading.{
  restore_worker, restore_workers, deserialize_stream, deserialize_release, from_serialized,
}
use llama_agents.Saving.Restored.{
  restored, restored_state, Matches, Distinct, IsFaithful, Importable,
}
use llama_agents.Saving.RoundTrip.{traverse-same, traverse_values-same, worker_back}

some≢none : {V : Type 0} → (v : V) → some v ≡ none → ⊥
some≢none v e = cc

module _ {V : Type 0} where
  lookup-past :
      (k : String) (u : V) (front rest : Dict V)
      → lookup k front ≡ none
      → lookup k (front ++ (k, u) ∷ rest) ≡ some u
  unfolding lookup
  lookup-past k u [] rest h = rw (eq_refl k) refl
  lookup-past k u ((j, v) ∷ front) rest h = elim (Bool-cases (str_eq j k)) [
    | inl same ↦ absurd (some≢none v (rw same at h))
    | inr other ↦ rw other (lookup-past k u front rest (rw other at h))
  ]

  assign-past :
      (k : String) (u v : V) (front rest : Dict V)
      → lookup k front ≡ none
      → assign k v (front ++ (k, u) ∷ rest) ≡ front ++ (k, v) ∷ rest
  unfolding lookup assign
  assign-past k u v [] rest h = rw (eq_refl k) refl
  assign-past k u v ((j, x) ∷ front) rest h = elim (Bool-cases (str_eq j k)) [
    | inl same ↦ absurd (some≢none x (rw same at h))
    | inr other ↦ rw other (ap (λ d. (j, x) ∷ d) (assign-past k u v front rest (rw other at h)))
  ]

  lookup-snoc :
      (k j : String) (v : V) (front : Dict V)
      → lookup j front ≡ none
      → str_eq k j ≡ false
      → lookup j (front ++ (k, v) ∷ []) ≡ none
  unfolding lookup
  lookup-snoc k j v [] h e = rw e refl
  lookup-snoc k j v ((i, x) ∷ front) h e = elim (Bool-cases (str_eq i j)) [
    | inl same ↦ absurd (some≢none x (rw same at h))
    | inr other ↦ rw other (lookup-snoc k j v front (rw other at h) e)
  ]

  Missing-snoc :
      (k : String) (v : V) (front : Dict V) (ks : List String)
      → All (λ j. lookup j front ≡ none) ks
      → All (λ j. str_eq k j ≡ false) ks
      → All (λ j. lookup j (front ++ (k, v) ∷ []) ≡ none) ks
  Missing-snoc k v front [] h e = tt
  Missing-snoc k v front (j ∷ ks) h e =
      (lookup-snoc k j v front h.0 e.0, Missing-snoc k v front ks h.1 e.1)

all_missing : (V : Type 0) (ks : List String) → All (λ j. lookup {V = V} j [] ≡ none) ks
unfolding lookup
all_missing V [] = tt
all_missing V (k ∷ ks) = (refl, all_missing V ks)

module _ {Value : Type 0} (w : World) (serializer : Serializer Value)
    (faithful : IsFaithful serializer) where
  -- One round of the loop, for a step that the workflow has.
  restore_step :
      (k : String) (saved : SerializedStepWorkerState Value)
      (rest : Dict (SerializedStepWorkerState Value)) (workers : Dict InternalStepWorkerState)
      (u u' : InternalStepWorkerState)
      → lookup k workers ≡ some u
      → restore_worker serializer saved u ≡ ok u'
      → restore_workers serializer ((k, saved) ∷ rest) workers
        ≡ restore_workers serializer rest (assign k u' workers)
  unfolding restore_workers
  restore_step k saved rest workers u u' found back = rw (found, restore_workers, back) refl

  workers_back :
      (steps : Dict StepConfig) (workers front : Dict InternalStepWorkerState)
      → Matches steps workers
      → Distinct (keys workers)
      → All (λ j. lookup j front ≡ none) (keys workers)
      → All (Importable w serializer) (values workers)
      → restore_workers serializer
          (map_values (serialize_worker w serializer) workers)
          (front ++ fresh_workers steps)
        ≡ ok (front ++ map_values restored workers)
  unfolding restore_workers map_values fresh_workers
  workers_back [] [] front m d fresh i = refl
  workers_back [] (_ ∷ _) front m d fresh i = absurd m
  workers_back (_ ∷ _) [] front m d fresh i = absurd m
  workers_back ((name, config) ∷ steps) ((key, ws) ∷ workers) front m d fresh i =
      let old : InternalStepWorkerState = fresh_worker config in
      let behind : Dict InternalStepWorkerState = fresh_workers steps in
      let placed : lookup key (front ++ (name, old) ∷ behind) ≡ some old =
        rw m.0 (lookup-past key old front behind fresh.0) in
      let loaded : restore_worker serializer (serialize_worker w serializer ws) old
          ≡ ok (restored ws) =
        rw m.1 (worker_back w serializer faithful ws i.0) in
      let replaced : assign key (restored ws) (front ++ (name, old) ∷ behind)
          ≡ (front ++ (key, restored ws) ∷ []) ++ behind =
        rw m.0 (assign-past key old (restored ws) front behind fresh.0)
        ∙ sym (append_assoc front ((key, restored ws) ∷ []) behind) in
      restore_step key (serialize_worker w serializer ws)
        (map_values (serialize_worker w serializer) workers) (front ++ (name, old) ∷ behind) old
        (restored ws) placed loaded
      ∙ ap (restore_workers serializer (map_values (serialize_worker w serializer) workers))
          replaced
      ∙ workers_back steps workers (front ++ (key, restored ws) ∷ []) m.2 d.1
          (Missing-snoc key (restored ws) front (keys workers) fresh.1 d.0) i.1
      ∙ ap ok (append_assoc front ((key, restored ws) ∷ []) (map_values restored workers))

  release_back :
      (r : CollectionReleaseState)
      → deserialize_release serializer (serialize_release w serializer r) ≡ ok r
  unfolding deserialize_release serialize_release
  release_back r =
      rw (traverse-same serializer.serialize serializer.deserialize faithful.events r.buffer) refl

  streams_back :
      (d : Dict CollectionStreamInstance)
      → map_values (deserialize_stream serializer) (map_values (serialize_stream w serializer) d)
        ≡ d
  unfolding map_values deserialize_stream serialize_stream
  streams_back [] = refl
  streams_back ((k, x) ∷ d) = ap (λ rest. (k, x) ∷ rest) (streams_back d)

  -- A state of the workflow that is written and read again comes back, unless reading raises on a
  -- class that a waiter names: the executions are queued as a rewind would queue them, behind the
  -- attempts that waited; waiters forget the values of their requirements and that they timed out; a
  -- work item that carries a release takes its event from it; all else is as it was, streams,
  -- releases and counters included.
  pub from_serialized-to_serialized :
      (workflow : Workflow) (s : BrokerState)
      → Matches workflow.steps s.workers
      → Distinct (keys s.workers)
      → All (Importable w serializer) (values s.workers)
      → from_serialized serializer (to_serialized w serializer s) workflow
        ≡ ok (restored_state workflow s)
  unfolding from_serialized to_serialized from_workflow
  from_serialized-to_serialized workflow s m d i =
      rw
        (
          traverse_values-same (serialize_release w serializer) (deserialize_release serializer)
              release_back s.collection_release_states,
          workers_back workflow.steps s.workers [] m d (all_missing _ (keys s.workers)) i,
          streams_back s.streams,
        )
        refl
