-- ===== src/Collecting/Closing.antt =====
-- The close of a binding (`close_collection_stream` of
-- workflows/runtime/control_loop/streams.py), and what comes after a release.
use llama_agents.Prelude.{
  ◌≡◌, refl, ap, ◌∙◌, inl, inr, ℤ, String, true, get_or, Dict, Option, none, some, List, [], ◌∷◌,
  ok, raise, Option-cases, append-nil, is_none, lookup, assign, lookup-assign_same, delete,
  delete-assign, delete-absent,
}
use llama_agents.Types.{
  Event, CollectionBinding, CollectionReleaseState, World, BrokerState, InternalStepWorkerState,
  TickAddEvent, root,
}
use llama_agents.Effects.{
  Emitting, Reduced, Gives, Gives-map, done, prepend, ◌▷◌, in_worker, put_worker,
}
use llama_agents.Streams.{
  new_release_state, release_on_close, release_state_key, release_binding, close_binding,
  fire_collection_release, release_attempt, payload_of,
}
use llama_agents.AddEvent.Members.{arrive_at}
use llama_agents.Capacity.Slots.{IsValid}
use llama_agents.Capacity.Dispatching.{add_or_enqueue_event-IsValid}
use llama_agents.Collecting.{release_state, holding, Collects, collected, fired_once}
use llama_agents.Collecting.Arriving.{collected-step}

pub prepend-nil : (m : Reduced) → prepend [] m ≡ m
prepend-nil (ok r) = refl
prepend-nil (raise e) = refl

module _ (w : World) (now : ℤ) (binding : CollectionBinding) (stream_id : String)
    (path : List String) where
  -- The close, by the release states that are left and by what it releases.
  abbrev pub closed :
      InternalStepWorkerState
      → BrokerState
      → Dict CollectionReleaseState
      → Option (List Event)
      → Reduced
  closed ws s d none = done (record s { collection_release_states = d })
  closed ws s d (some events) =
      fired_once w now binding stream_id path events ws (record s { collection_release_states = d })

  pub release_binding-closed :
      (s : BrokerState) (ws : InternalStepWorkerState) (d : Dict CollectionReleaseState)
      → release_binding w now stream_id path binding ws (record s { collection_release_states = d })
        ≡ closed ws s (delete (release_state_key stream_id binding.id) d) (
            release_on_close binding (
              get_or
                (lookup (release_state_key stream_id binding.id) d)
                (new_release_state stream_id binding)))
  unfolding release_binding
  release_binding-closed s ws d =
      elim (Option-cases (
        release_on_close binding (
          get_or (lookup (release_state_key stream_id binding.id) d)
            (new_release_state stream_id binding)))) [
              | inl nothing ↦ rw (nothing, release_binding) refl
              | inr (events, e) ↦ rw (e, release_binding) refl
            ]

  pub close-holding :
      (r : CollectionReleaseState) (s : BrokerState) (ws : InternalStepWorkerState)
      → Collects binding stream_id s ws
      → close_binding w now stream_id path binding (holding binding stream_id r s)
        ≡ closed ws s s.collection_release_states (release_on_close binding r)
  unfolding close_binding
  close-holding r s ws c =
      let d : Dict CollectionReleaseState =
        assign (release_state_key stream_id binding.id) r s.collection_release_states in
      rw (c.target, close_binding, c.collects)
        (release_binding-closed s ws d
          ∙ ap
              (λ o.
                closed ws s (delete (release_state_key stream_id binding.id) d)
                  (release_on_close binding (get_or o (new_release_state stream_id binding))))
              (lookup-assign_same (release_state_key stream_id binding.id) r
                s.collection_release_states)
          ∙ ap (λ x. closed ws s x (release_on_close binding r))
              (delete-assign (release_state_key stream_id binding.id) r s.collection_release_states
                ∙ delete-absent (release_state_key stream_id binding.id) s.collection_release_states
                    c.fresh))

  -- What follows a release that returns, where it changes nothing but the release states.
  fire-then :
      (m : Emitting InternalStepWorkerState) (P : InternalStepWorkerState → Type 0)
      (s s' : BrokerState) (f : BrokerState → Reduced)
      → Gives P m
      → ((ws : InternalStepWorkerState)
          → P ws
          → f (put_worker binding.target_step ws s') ≡ done (put_worker binding.target_step ws s))
      → (in_worker binding.target_step s' m ▷ f) ≡ in_worker binding.target_step s m
  unfolding in_worker
  fire-then (ok (ws, cs)) P s s' f h k =
      rw (k ws h) (ap (λ l. ok (put_worker binding.target_step ws s, l)) (append-nil cs))
  fire-then (raise e) P s s' f h k = absurd h

  fire-config :
      (ws : InternalStepWorkerState) (events : List Event)
      → IsValid ws
      → Gives
          (λ ws'. ws'.config ≡ ws.config)
          (fire_collection_release w now binding stream_id ws events path)
  unfolding fire_collection_release
  fire-config ws events valid =
      Gives-map (λ ws'. IsValid ws' × (ws'.config ≡ ws.config)) (λ ws'. ws'.config ≡ ws.config) _
        (λ ws' h. h.1)
        (add_or_enqueue_event-IsValid w now
          (release_attempt w now (payload_of w now binding stream_id events path))
          (root binding.target_step) ws valid)

  -- After it has fired nothing more is released.
  collected-fired :
      (ticks : List TickAddEvent) (buffer : List Event) (s : BrokerState)
      (ws : InternalStepWorkerState)
      → Collects binding stream_id s ws
      → collected w now binding stream_id path ticks
          (holding binding stream_id (release_state binding stream_id true buffer) s)
        ≡ done s
  unfolding release_on_close arrive_at
  collected-fired [] buffer s ws c =
      close-holding (release_state binding stream_id true buffer) s ws c
  collected-fired (tick ∷ ticks) buffer s ws c =
      collected-step w now binding stream_id path tick ticks
        (release_state binding stream_id true buffer) s ws c
      ∙ prepend-nil (
          collected w now binding stream_id path ticks
            (holding binding stream_id (release_state binding stream_id true buffer) s))
      ∙ collected-fired ticks buffer s ws c

  -- The release, and what comes after it.
  pub fires :
      (ticks : List TickAddEvent) (buffer events : List Event) (s : BrokerState)
      (ws : InternalStepWorkerState)
      → Collects binding stream_id s ws
      → IsValid ws
      → (fired_once w now binding stream_id path events ws
            (holding binding stream_id (release_state binding stream_id true buffer) s)
          ▷ collected w now binding stream_id path ticks)
        ≡ fired_once w now binding stream_id path events ws s
  unfolding put_worker
  fires ticks buffer events s ws c valid =
      fire-then _ (λ ws'. ws'.config ≡ ws.config) s
        (holding binding stream_id (release_state binding stream_id true buffer) s)
        (collected w now binding stream_id path ticks) (fire-config ws events valid)
        (λ ws' kept.
          collected-fired ticks buffer (put_worker binding.target_step ws' s) ws' (record {
            target = lookup-assign_same binding.target_step ws' s.workers;
            collects = ap (λ cfg. is_none cfg.collection_param) kept ∙ c.collects;
            fresh = c.fresh;
          }))
