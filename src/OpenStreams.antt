-- ===== src/OpenStreams.antt =====
-- The counters of open work (`adjust_open_work_items` and `close_collection_stream` of
-- workflows/runtime/control_loop/streams.py).
use llama_agents.Prelude.{
  ℤ, pos, leb_ℤ, ◌+ℤ◌, ◌≡◌, refl, subst, inl, inr, String, Option, none, some, List, [], ◌∷◌, Dict,
  lookup, assign, delete, lookup-assign_same, Bool-cases, Option-cases, is_none, get_or,
  if◌then◌else◌, ok, raise,
}
use llama_agents.Types.{
  BrokerState, CollectionBinding, CollectionStreamInstance, InternalStepWorkerState, World,
  bindings_for_source,
}
use llama_agents.Prelude.{delete-assign}
use llama_agents.Effects.{
  Emitting, Keeps, done, Keeps-▷, Keeps-in_worker, Keeps-if, in_worker, put_worker,
}
use llama_agents.Streams.{
  release_binding, release_on_close, release_state_key, new_release_state, close_binding,
  close_bindings, close_collection_stream, adjust_open_work_items,
}

abbrev pub Streams : Type 0
Streams = Dict CollectionStreamInstance

-- The streams after the counter of one of them has changed: the stream is gone where nothing is left
-- to do in it.
abbrev pub recounted : String → ℤ → Streams → Option CollectionStreamInstance → Streams
recounted stream_id delta streams none = streams
recounted stream_id delta streams (some stream) =
    let count = stream.open_work_items +ℤ delta in
    if leb_ℤ count (pos 0)
    then delete stream_id streams
    else assign stream_id (record stream { open_work_items = count }) streams

abbrev pub adjusted : Option String → ℤ → Streams → Streams
adjusted none delta streams = streams
adjusted (some stream_id) delta streams =
    recounted stream_id delta streams (lookup stream_id streams)

module _ (w : World) (now : ℤ) where
  -- What a release or the close of a binding leaves alone.
  abbrev SameStreams : Streams → BrokerState → Type 0
  SameStreams d s = s.streams ≡ d

  Keeps-any : (m : Emitting InternalStepWorkerState) → Keeps (λ ws. Unit) m
  Keeps-any (ok r) = tt
  Keeps-any (raise e) = tt

  in_worker-streams :
      (name : String) (s : BrokerState) (m : Emitting InternalStepWorkerState)
      → Keeps (SameStreams s.streams) (in_worker name s m)
  unfolding put_worker
  in_worker-streams name s m =
      Keeps-in_worker (λ ws. Unit) (SameStreams s.streams) name s m (Keeps-any m) (λ ws u. refl)

  module _ (stream_id : String) (scope_path : List String) where
    release_binding-streams :
        (binding : CollectionBinding) (ws : InternalStepWorkerState) (s : BrokerState)
        → Keeps (SameStreams s.streams) (release_binding w now stream_id scope_path binding ws s)
    unfolding release_binding
    release_binding-streams binding ws s =
        let key = release_state_key stream_id binding.id in
        let release_state =
          get_or (lookup key s.collection_release_states) (new_release_state stream_id binding) in
        elim (Option-cases (release_on_close binding release_state)) [
          | inl nothing ↦ rw (nothing, release_binding) refl
          | inr (release, e) ↦ rw (e, release_binding) (in_worker-streams binding.target_step _ _)
        ]

    close_binding-streams :
        (binding : CollectionBinding) (s : BrokerState)
        → Keeps (SameStreams s.streams) (close_binding w now stream_id scope_path binding s)
    unfolding close_binding
    close_binding-streams binding s = elim (Option-cases (lookup binding.target_step s.workers)) [
      | inl missing ↦ rw (missing, close_binding) refl
      | inr (ws, e) ↦
          rw (e, close_binding)
            (Keeps-if (SameStreams s.streams) (is_none ws.config.collection_param) (done s)
              (release_binding w now stream_id scope_path binding ws s) (λ skip. refl)
              (λ collects. release_binding-streams binding ws s))
    ]

    close_bindings-streams :
        (bindings : List CollectionBinding) (d : Streams) (s : BrokerState)
        → s.streams ≡ d
        → Keeps (SameStreams d) (close_bindings w now stream_id scope_path bindings s)
    unfolding close_bindings
    close_bindings-streams [] d s e = e
    close_bindings-streams (binding ∷ bindings) d s e =
        Keeps-▷ (SameStreams d) (SameStreams d) _ _
          (subst (λ x. Keeps (SameStreams x) (close_binding w now stream_id scope_path binding s)) e
            (close_binding-streams binding s))
          (close_bindings-streams bindings d)

  pub close-streams :
      (stream_id : String) (stream : CollectionStreamInstance) (s : BrokerState)
      → lookup stream_id s.streams ≡ some stream
      → Keeps (SameStreams (delete stream_id s.streams)) (close_collection_stream w now stream_id s)
  unfolding close_collection_stream
  close-streams stream_id stream s e =
      rw (e, close_collection_stream)
        (close_bindings-streams stream_id stream.scope_path
          (bindings_for_source s.config stream.source_step) _
          (record s { streams = delete stream_id s.streams }) refl)

  pub adjust-streams :
      (stream_id : Option String) (delta : ℤ) (s : BrokerState)
      → Keeps
          (SameStreams (adjusted stream_id delta s.streams))
          (adjust_open_work_items w now stream_id delta s)
  unfolding adjust_open_work_items
  adjust-streams none delta s = refl
  adjust-streams (some stream_id) delta s = elim (Option-cases (lookup stream_id s.streams)) [
    | inl missing ↦ rw (missing, adjust_open_work_items) refl
    | inr (stream, e) ↦
        let count = stream.open_work_items +ℤ delta in
        let stream' : CollectionStreamInstance = record stream { open_work_items = count } in
        let s' : BrokerState = record s { streams = assign stream_id stream' s.streams } in
        elim (Bool-cases (leb_ℤ count (pos 0))) [
          | inl closes ↦
              rw (e, adjust_open_work_items, closes)
                (subst (λ d. Keeps (SameStreams d) (close_collection_stream w now stream_id s'))
                  (delete-assign stream_id stream' s.streams)
                  (close-streams stream_id stream' s'
                    (lookup-assign_same stream_id stream' s.streams)))
          | inr stays ↦ rw (e, adjust_open_work_items, stays) refl
        ]
  ]
