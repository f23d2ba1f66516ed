-- ===== src/StaticCollect.antt =====
-- Fan-in over several declared parameters: `_select_static_collect_batch` and
-- `_static_collect_events` of workflows/runtime/control_loop/reduce.py.
use llama_agents.Prelude.{
  ℕ, suc, String, Bool, Option, none, some, List, [], ◌∷◌, ◌++◌, contains, get_elem?, if◌then◌else◌,
  Dict, assign, Result, ok, ◌>>=◌, from_option,
}
use llama_agents.Types.{Class, Event, World, InternalStepWorkerState, Error, index_error}
use llama_agents.Matching.{event_matches}

-- The `for event_index, candidate in enumerate(events)` loop: `search_rest used` is the search for
-- the parameters behind this one.
unfoldable pub try_events :
    (matches : Event → Bool) (search_rest : List ℕ → Option (List ℕ)) (used : List ℕ)
    → ℕ
    → List Event
    → Option (List ℕ)
try_events matches search_rest used event_index [] = none
try_events matches search_rest used event_index (candidate ∷ events) =
    let later = try_events matches search_rest used (suc event_index) events in
    if contains used event_index
    then later
    else if matches candidate
    then (elim (search_rest (event_index ∷ used)) [
      | none ↦ later
      | some rest ↦ some (event_index ∷ rest)
    ])
    else later

module _ (w : World) (allow_subclasses : Bool) (events : List Event) where
  unfoldable pub search_batch : List (String × Class) → List ℕ → Option (List ℕ)
  unfolding try_events event_matches
  search_batch [] used = some []
  search_batch ((_, event_type) ∷ params) used =
      try_events (λ e. event_matches w allow_subclasses e event_type) (search_batch params) used 0
        events

  unfoldable pub select_static_collect_batch : List (String × Class) → Option (List ℕ)
  unfolding search_batch
  select_static_collect_batch collect_params = search_batch collect_params []

-- The dictionary comprehension over `zip(collect_params, selected_indices)`.
unfoldable pub bind_batch :
    List Event → List (String × Class) → List ℕ → Dict Event → Result Error (Dict Event)
bind_batch events ((param_name, _) ∷ params) (event_index ∷ indices) binding =
    from_option (get_elem? events event_index) index_error >>= λ event.
    bind_batch events params indices (assign param_name event binding)
bind_batch events _ _ binding = ok binding

-- The events whose index is not selected.
unfoldable pub drop_selected : ℕ → List Event → List ℕ → List Event
drop_selected index [] selected = []
drop_selected index (pending ∷ events) selected =
    let rest = drop_selected (suc index) events selected in
    if contains selected index then rest else pending ∷ rest

-- The selected events leave the buffer; without a batch the buffer is kept.
unfoldable pub take_batch :
    InternalStepWorkerState
    → List Event
    → List (String × Class)
    → Option (List ℕ)
    → Result Error (InternalStepWorkerState × Option (Dict Event))
unfolding bind_batch drop_selected
take_batch worker_state pending collect_params none =
    ok (record worker_state { static_collect_events = pending }, none)
take_batch worker_state pending collect_params (some selected) =
    bind_batch pending collect_params selected [] >>= λ binding.
    ok (
      record worker_state { static_collect_events = drop_selected 0 pending selected },
      some binding,
    )

-- The new worker state, and the binding if every slot is filled.
unfoldable pub static_collect_events :
    World
    → Event
    → InternalStepWorkerState
    → Result Error (InternalStepWorkerState × Option (Dict Event))
unfolding select_static_collect_batch take_batch
static_collect_events w event worker_state = elim worker_state.config.collect_params [
  | none ↦ ok (worker_state, none)
  | some collect_params ↦
      let pending = worker_state.static_collect_events ++ (event ∷ []) in
      take_batch worker_state pending collect_params (
        select_static_collect_batch w worker_state.config.accept_event_subclasses pending
          collect_params)
]
