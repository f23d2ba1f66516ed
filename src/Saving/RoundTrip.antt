-- ===== src/Saving/RoundTrip.antt =====
-- A broker state is read back as it was written (`to_serialized` and `from_serialized` of
-- workflows/runtime/types/internal_state.py).
use mathlib.Core.Option
use llama_agents.Prelude.{◌≡◌, refl, Option, none, some, List, [], ◌∷◌, ◌++◌, map, All, Dict, ok}
use llama_agents.Types.{
  World, Event, CollectionReleasePayload, EventAttempt, InProgressState, InternalStepWorkerState,
  StepWorkerWaiter,
}
use llama_agents.Reduce.{rewound_attempt}
use llama_agents.Start.{fresh_worker}
use llama_agents.Saving.Serialized.{Serializer}
use llama_agents.Saving.Writing.{
  map_values, type_name, serialize_payload, serialize_attempt, serialize_execution,
  serialize_waiter, serialize_worker,
}
use llama_agents.Saving.Reading.{
  Loaded, traverse, traverse_values, traverse_option, deserialize_payload, trigger_event,
  deserialize_event_attempt, resolved_of, deserialize_waiter, restore_worker,
}
use llama_agents.Saving.Restored.{
  trigger, settled, settled_waiter, restored, IsFaithful, Importable,
}

module _ {A B C : Type 0} (P : A → Type 0) (g : A → B) (f : B → Loaded C) (h : A → C)
    (back : (x : A) → P x → f (g x) ≡ ok (h x)) where
  traverse-map : (xs : List A) → All P xs → traverse f (map g xs) ≡ ok (map h xs)
  unfolding traverse
  traverse-map [] p = refl
  traverse-map (x ∷ xs) p = rw (back x p.0, traverse-map xs p.1) refl

module _ {A B : Type 0} (g : A → B) (f : B → Loaded A) (back : (x : A) → f (g x) ≡ ok x) where
  pub traverse-same : (xs : List A) → traverse f (map g xs) ≡ ok xs
  unfolding traverse
  traverse-same [] = refl
  traverse-same (x ∷ xs) = rw (back x, traverse-same xs) refl

  pub traverse_values-same : (d : Dict A) → traverse_values f (map_values g d) ≡ ok d
  unfolding traverse_values map_values
  traverse_values-same [] = refl
  traverse_values-same ((k, x) ∷ d) = rw (back x, traverse_values-same d) refl

  traverse_option-same : (o : Option A) → traverse_option f (Option.map g o) ≡ ok o
  unfolding traverse_option
  traverse_option-same none = refl
  traverse_option-same (some x) = rw (back x) refl

module _ {A A' B C : Type 0} (g : A → B) (g' : A' → B) (f : B → Loaded C) (h : A → C) (h' : A' → C)
    (back : (x : A) → f (g x) ≡ ok (h x)) (back' : (x : A') → f (g' x) ≡ ok (h' x)) where
  traverse-append :
      (xs : List A) (ys : List A') → traverse f (map g xs ++ map g' ys) ≡ ok (map h xs ++ map h' ys)
  unfolding traverse
  traverse-append [] [] = refl
  traverse-append [] (y ∷ ys) = rw (back' y, traverse-append [] ys) refl
  traverse-append (x ∷ xs) ys = rw (back x, traverse-append xs ys) refl

module _ {Value : Type 0} (w : World) (serializer : Serializer Value)
    (faithful : IsFaithful serializer) where
  open serializer use {serialize, deserialize}

  payload_back :
      (p : CollectionReleasePayload)
      → deserialize_payload serializer (serialize_payload w serializer p) ≡ ok p
  unfolding deserialize_payload serialize_payload
  payload_back p = rw (traverse-same serialize deserialize faithful.events p.events) refl

  trigger_back :
      (payload : Option CollectionReleasePayload) (e : Event)
      → trigger_event serializer payload (serialize e) ≡ ok (trigger payload e)
  unfolding trigger_event
  trigger_back none e = faithful.events e
  trigger_back (some payload) e = refl

  bound_back :
      (bound : Option (Dict Event))
      → traverse_option (traverse_values deserialize) (Option.map (map_values serialize) bound)
        ≡ ok bound
  bound_back =
      traverse_option-same (map_values serialize) (traverse_values deserialize)
        (traverse_values-same serialize deserialize faithful.events)

  payloads_back :
      (payload : Option CollectionReleasePayload)
      → traverse_option
          (deserialize_payload serializer)
          (Option.map (serialize_payload w serializer) payload)
        ≡ ok payload
  payloads_back =
      traverse_option-same (serialize_payload w serializer) (deserialize_payload serializer)
        payload_back

  attempt_back :
      (a : EventAttempt)
      → deserialize_event_attempt serializer (serialize_attempt w serializer a) ≡ ok (settled a)
  unfolding deserialize_event_attempt serialize_attempt
  attempt_back a =
      rw
        (
          payloads_back a.collection_release_payload,
          trigger_back a.collection_release_payload a.event,
          bound_back a.bound_events,
        )
        refl

  execution_back :
      (p : InProgressState)
      → deserialize_event_attempt serializer (serialize_execution w serializer p)
        ≡ ok (settled (rewound_attempt p))
  unfolding deserialize_event_attempt serialize_execution rewound_attempt
  execution_back p =
      rw
        (
          payloads_back p.shared_state.collection_release_payload,
          trigger_back p.shared_state.collection_release_payload p.event,
          bound_back p.bound_events,
        )
        refl

  resolved_back : (o : Option Event) → resolved_of serializer (Option.map serialize o) ≡ ok o
  unfolding resolved_of
  resolved_back none = refl
  resolved_back (some e) = rw (faithful.written e, faithful.events e) refl

  waiter_back :
      (x : StepWorkerWaiter)
      → serializer.import_event_type (type_name w x.waiting_for_event) ≡ ok x.waiting_for_event
      → deserialize_waiter serializer (serialize_waiter w serializer x) ≡ ok (settled_waiter x)
  unfolding deserialize_waiter serialize_waiter
  waiter_back x importable =
      rw
        (
          payloads_back x.collection_release_payload,
          bound_back x.bound_events,
          trigger_back x.collection_release_payload x.event,
          importable,
          resolved_back x.resolved_event,
        )
        refl

  pub worker_back :
      (ws : InternalStepWorkerState)
      → Importable w serializer ws
      → restore_worker serializer (serialize_worker w serializer ws) (fresh_worker ws.config)
        ≡ ok (restored ws)
  unfolding restore_worker serialize_worker fresh_worker
  worker_back ws importable =
      rw
        (
          traverse-append (serialize_attempt w serializer) (serialize_execution w serializer)
              (deserialize_event_attempt serializer) settled (λ p. settled (rewound_attempt p))
              attempt_back execution_back ws.queue ws.in_progress,
          traverse_values-same (map serialize) (traverse deserialize)
              (traverse-same serialize deserialize faithful.events) ws.collected_events,
          traverse-same serialize deserialize faithful.events ws.static_collect_events,
          traverse-map _ (serialize_waiter w serializer) (deserialize_waiter serializer)
              settled_waiter waiter_back ws.collected_waiters importable,
        )
        refl
