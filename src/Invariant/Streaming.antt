-- ===== src/Invariant/Streaming.antt =====
-- The stream accounting of workflows/runtime/control_loop/streams.py always returns, and keeps every
-- invariant of the workers: a release only dispatches.
use llama_agents.Prelude.{
  ℤ, pos, leb_ℤ, ◌+ℤ◌, inl, inr, String, Option, none, some, List, [], ◌∷◌, Bool-cases,
  Option-cases, lookup, is_none, get_or,
}
use llama_agents.Types.{BrokerState, InternalStepWorkerState, CollectionBinding, World, Event, root}
use llama_agents.Effects.{Gives, Gives-▷}
use llama_agents.Streams.{
  fire_collection_release, release_attempt, payload_of, release_binding, release_on_close,
  release_state_key, new_release_state, close_binding, close_bindings, close_collection_stream,
  adjust_open_work_items,
}
use llama_agents.Invariant.Local.{
  LocalInvariant, AllWorkers, in_worker-AllWorkers, AllWorkers-lookup,
}

module _ (w : World) (now : ℤ) (P : InternalStepWorkerState → Type 0)
    (inv : LocalInvariant w now P) where
  pub fire-keeps :
      (binding : CollectionBinding) (stream_id : String) (ws : InternalStepWorkerState)
      (events : List Event) (output_stack : List String)
      → P ws
      → Gives P (fire_collection_release w now binding stream_id ws events output_stack)
  unfolding fire_collection_release
  fire-keeps binding stream_id ws events output_stack p =
      inv.dispatch (release_attempt w now (payload_of w now binding stream_id events output_stack))
        (root binding.target_step) ws p

  module _ (stream_id : String) (scope_path : List String) where
    release_binding-AllWorkers :
        (binding : CollectionBinding) (ws : InternalStepWorkerState) (s : BrokerState)
        → AllWorkers P s
        → P ws
        → Gives (AllWorkers P) (release_binding w now stream_id scope_path binding ws s)
    unfolding release_binding
    release_binding-AllWorkers binding ws s h p =
        let key = release_state_key stream_id binding.id in
        let release_state =
          get_or (lookup key s.collection_release_states) (new_release_state stream_id binding) in
        elim (Option-cases (release_on_close binding release_state)) [
          | inl nothing ↦ rw (nothing, release_binding) h
          | inr (release, e) ↦
              rw (e, release_binding)
                (in_worker-AllWorkers P _ _ _ h
                  (fire-keeps binding stream_id ws release scope_path p))
        ]

    close_binding-AllWorkers :
        (binding : CollectionBinding) (s : BrokerState)
        → AllWorkers P s
        → Gives (AllWorkers P) (close_binding w now stream_id scope_path binding s)
    unfolding close_binding
    close_binding-AllWorkers binding s h =
        elim (Option-cases (lookup binding.target_step s.workers)) [
          | inl missing ↦ rw (missing, close_binding) h
          | inr (ws, e) ↦ elim (Bool-cases (is_none ws.config.collection_param)) [
            | inl skip ↦ rw (e, close_binding, skip) h
            | inr collects ↦
                rw (e, close_binding, collects)
                  (release_binding-AllWorkers binding ws s h
                    (AllWorkers-lookup P binding.target_step s ws h e))
          ]
        ]

    close_bindings-AllWorkers :
        (bindings : List CollectionBinding) (s : BrokerState)
        → AllWorkers P s
        → Gives (AllWorkers P) (close_bindings w now stream_id scope_path bindings s)
    unfolding close_bindings
    close_bindings-AllWorkers [] s h = h
    close_bindings-AllWorkers (binding ∷ bindings) s h =
        Gives-▷ (AllWorkers P) (AllWorkers P) _ _ (close_binding-AllWorkers binding s h)
          (close_bindings-AllWorkers bindings)

  pub close_collection_stream-AllWorkers :
      (stream_id : String) (s : BrokerState)
      → AllWorkers P s
      → Gives (AllWorkers P) (close_collection_stream w now stream_id s)
  unfolding close_collection_stream
  close_collection_stream-AllWorkers stream_id s h =
      elim (Option-cases (lookup stream_id s.streams)) [
        | inl missing ↦ rw (missing, close_collection_stream) h
        | inr (stream, e) ↦
            rw (e, close_collection_stream)
              (close_bindings-AllWorkers stream_id stream.scope_path _ _ h)
      ]

  pub adjust_open_work_items-AllWorkers :
      (stream_id : Option String) (delta : ℤ) (s : BrokerState)
      → AllWorkers P s
      → Gives (AllWorkers P) (adjust_open_work_items w now stream_id delta s)
  unfolding adjust_open_work_items
  adjust_open_work_items-AllWorkers none delta s h = h
  adjust_open_work_items-AllWorkers (some stream_id) delta s h =
      elim (Option-cases (lookup stream_id s.streams)) [
        | inl missing ↦ rw (missing, adjust_open_work_items) h
        | inr (stream, e) ↦ elim (Bool-cases (leb_ℤ (stream.open_work_items +ℤ delta) (pos 0))) [
          | inl closes ↦
              rw (e, adjust_open_work_items, closes)
                (close_collection_stream-AllWorkers stream_id _ h)
          | inr stays ↦ rw (e, adjust_open_work_items, stays) h
        ]
      ]
