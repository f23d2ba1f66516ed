-- ===== src/Collecting/Once.antt =====
-- All arrivals of a stream and its close, over the operations of
-- workflows/runtime/control_loop/reduce.py and streams.py.
use llama_agents.Prelude.{
  ℕ, zero, suc, ◌≤◌, ◌≡◌, refl, ap, sym, ◌∙◌, inl, inr, ℤ, String, false, get_or, none, some, List,
  [], ◌∷◌, ◌++◌, init, length, take, map, ltb, ltb→lt, ltb→le, Bool-cases, Option-cases, arith,
  append_assoc, append-nil, is_none, All, lookup, delete, delete-absent,
}
use llama_agents.Types.{
  Event, CollectionBinding, World, BrokerState, InternalStepWorkerState, TickAddEvent,
}
use llama_agents.Effects.{◌▷◌}
use llama_agents.Streams.{
  take_threshold, new_release_state, release_on_item, release_on_close, release_state_key,
  close_binding,
}
use llama_agents.StepResult.Threading.{get_worker}
use llama_agents.Capacity.Slots.{IsValid}
use llama_agents.Collecting.{
  release_state, holding, Collects, IsFrom, collected, fired_once, wanted,
}
use llama_agents.Collecting.Arriving.{collected-step, arrive-fresh, arrive-pending}
use llama_agents.Collecting.Closing.{
  prepend-nil, closed, close-holding, release_binding-closed, fires,
}

take-append : (n : ℕ) (xs ys : List Event) → n ≤ length xs → take n (xs ++ ys) ≡ take n xs
take-append zero xs ys h = refl
take-append (suc n) [] ys h = absurd (omega arith)
take-append (suc n) (x ∷ xs) ys h = ap (◌∷◌ x) (take-append n xs ys (omega arith))

module _ (w : World) (now : ℤ) (binding : CollectionBinding) (stream_id : String)
    (path : List String) where
  abbrev events_of : List TickAddEvent → List Event
  events_of ticks = map (λ t. t.event) ticks

  without_threshold :
      (ticks : List TickAddEvent) (buffer : List Event) (s : BrokerState)
      (ws : InternalStepWorkerState)
      → Collects binding stream_id s ws
      → All (IsFrom path) ticks
      → take_threshold binding.policy ≡ none
      → collected w now binding stream_id path ticks
          (holding binding stream_id (release_state binding stream_id false buffer) s)
        ≡ fired_once w now binding stream_id path (buffer ++ events_of ticks) ws s
  unfolding release_on_close release_on_item
  without_threshold [] buffer s ws c from t =
      close-holding w now binding stream_id path (release_state binding stream_id false buffer) s ws
        c
      ∙ rw (t, release_on_close, append-nil buffer) refl
  without_threshold (tick ∷ ticks) buffer s ws c from t =
      let more = buffer ++ (tick.event ∷ []) in
      collected-step w now binding stream_id path tick ticks
        (release_state binding stream_id false buffer) s ws c
      ∙ ap (λ m. m ▷ collected w now binding stream_id path ticks)
          (arrive-pending w now binding stream_id path tick buffer s ws from.0)
      ∙ rw (t, release_on_item)
          (prepend-nil (
              collected w now binding stream_id path ticks
                (holding binding stream_id (release_state binding stream_id false more) s))
            ∙ without_threshold ticks more s ws c from.1 t
            ∙ ap (λ l. fired_once w now binding stream_id path l ws s)
                (append_assoc buffer (tick.event ∷ []) (events_of ticks)))

  -- No more members than the threshold so far.
  with_threshold :
      (n : ℕ) (ticks : List TickAddEvent) (buffer : List Event) (s : BrokerState)
      (ws : InternalStepWorkerState)
      → Collects binding stream_id s ws
      → IsValid ws
      → All (IsFrom path) ticks
      → take_threshold binding.policy ≡ some n
      → length buffer ≤ n
      → collected w now binding stream_id path ticks
          (holding binding stream_id (release_state binding stream_id false buffer) s)
        ≡ fired_once w now binding stream_id path (take n (buffer ++ events_of ticks)) ws s
  unfolding release_on_close release_on_item
  with_threshold n [] buffer s ws c valid from t few =
      close-holding w now binding stream_id path (release_state binding stream_id false buffer) s ws
        c
      ∙ rw (t, release_on_close, append-nil buffer) refl
  with_threshold n (tick ∷ ticks) buffer s ws c valid from t few =
      let more = buffer ++ (tick.event ∷ []) in
      let together = append_assoc buffer (tick.event ∷ []) (events_of ticks) in
      collected-step w now binding stream_id path tick ticks
        (release_state binding stream_id false buffer) s ws c
      ∙ ap (λ m. m ▷ collected w now binding stream_id path ticks)
          (arrive-pending w now binding stream_id path tick buffer s ws from.0)
      ∙ elim (Bool-cases (ltb (length more) n)) [
        | inl short ↦
            rw (t, release_on_item, short)
              (prepend-nil (
                  collected w now binding stream_id path ticks
                    (holding binding stream_id (release_state binding stream_id false more) s))
                ∙ with_threshold n ticks more s ws c valid from.1 t
                    (omega (arith, ltb→lt _ _ short))
                ∙ ap (λ l. fired_once w now binding stream_id path (take n l) ws s) together)
        | inr reached ↦
            rw (t, release_on_item, reached)
              (fires w now binding stream_id path ticks more (take n more) s ws c valid
                ∙ ap (λ l. fired_once w now binding stream_id path l ws s)
                    (sym (take-append n more (events_of ticks) (ltb→le _ _ reached))
                      ∙ ap (take n) together))
      ]

  collected-wanted :
      (ticks : List TickAddEvent) (s : BrokerState) (ws : InternalStepWorkerState)
      → Collects binding stream_id s ws
      → IsValid ws
      → All (IsFrom path) ticks
      → collected w now binding stream_id path ticks
          (holding binding stream_id (release_state binding stream_id false []) s)
        ≡ fired_once w now binding stream_id path
            (wanted (take_threshold binding.policy) (events_of ticks))
            ws
            s
  collected-wanted ticks s ws c valid from = elim (Option-cases (take_threshold binding.policy)) [
    | inl t ↦
        without_threshold ticks [] s ws c from t
        ∙ ap (λ o. fired_once w now binding stream_id path (wanted o (events_of ticks)) ws s)
            (sym t)
    | inr (n, t) ↦
        with_threshold n ticks [] s ws c valid from t (omega arith)
        ∙ ap (λ o. fired_once w now binding stream_id path (wanted o (events_of ticks)) ws s)
            (sym t)
  ]

  -- The first arrival, or the close of an empty stream, stores what it needs.
  collected-fresh :
      (ticks : List TickAddEvent) (s : BrokerState) (ws : InternalStepWorkerState)
      → Collects binding stream_id s ws
      → collected w now binding stream_id path ticks s
        ≡ collected w now binding stream_id path ticks
            (holding binding stream_id (release_state binding stream_id false []) s)
  unfolding get_worker close_binding new_release_state
  collected-fresh [] s ws c =
      rw (c.target, close_binding, c.collects)
        (release_binding-closed w now binding stream_id path s ws s.collection_release_states
          ∙ ap
              (λ o.
                closed w now binding stream_id path ws s
                  (delete (release_state_key stream_id binding.id) s.collection_release_states)
                  (release_on_close binding (get_or o (new_release_state stream_id binding))))
              c.fresh
          ∙ ap
              (λ d.
                closed w now binding stream_id path ws s d
                  (release_on_close binding (release_state binding stream_id false [])))
              (delete-absent (release_state_key stream_id binding.id) s.collection_release_states
                c.fresh))
      ∙ sym (
          close-holding w now binding stream_id path (release_state binding stream_id false []) s ws
            c)
  collected-fresh (tick ∷ ticks) s ws c =
      rw (c.target, get_worker)
        (ap (λ m. m ▷ collected w now binding stream_id path ticks)
          (arrive-fresh w now binding stream_id path tick ws s c.fresh))
      ∙ sym (
          collected-step w now binding stream_id path tick ticks
            (release_state binding stream_id false []) s ws c)

  -- Members arrive one after the other in a stream, whatever they are and however many, and then it
  -- closes. If nothing was stored of the stream for the binding, and the target step has a list
  -- parameter and valid worker slots, then the step is invoked exactly once, and but for that the
  -- state is as it was: with the first `n` arrivals in their order under `Take(n)` (all of them if
  -- fewer arrive), and with all of them in their order under `All()`.
  pub collected-once :
      (ticks : List TickAddEvent) (s : BrokerState) (ws : InternalStepWorkerState)
      → lookup binding.target_step s.workers ≡ some ws
      → is_none ws.config.collection_param ≡ false
      → lookup (release_state_key stream_id binding.id) s.collection_release_states ≡ none
      → IsValid ws
      → All (λ tick. init tick.scope_path ≡ path) ticks
      → collected w now binding stream_id path ticks s
        ≡ fired_once w now binding stream_id path
            (wanted (take_threshold binding.policy) (map (λ tick. tick.event) ticks))
            ws
            s
  collected-once ticks s ws target collects fresh valid from =
      let c : Collects binding stream_id s ws = record {
        target = target;
        collects = collects;
        fresh = fresh;
      } in
      collected-fresh ticks s ws c ∙ collected-wanted ticks s ws c valid from
