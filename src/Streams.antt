-- ===== src/Streams.antt =====
-- Collection streams: stream ids, the open-work counters, closing a stream, and the releases of
-- buffered members (workflows/runtime/control_loop/streams.py).
use Prim.Native.String.{◌++◌ as text_append}
use llama_agents.Prelude.{
  ℕ, ◌+◌, ℤ, pos, ◌+ℤ◌, leb_ℤ, String, Bool, true, false, Option, none, some, List, [], ◌∷◌, length,
  take, sum, map, ltb, if◌then◌else◌, lookup, assign, delete, values, decimal, join, prefix,
  is_none, get_or,
}
use llama_agents.Types.{
  Class, Event, World, BrokerState, CollectionReleaseState, CollectionBinding, Collect, Cardinality,
  CollectionReleasePayload, InternalStepConfig, InternalStepWorkerState, EventAttempt, as_event,
  payload_work_item_id, attempt_of, root, bindings_for_source,
}
use llama_agents.Effects.{Emitting, Reduced, ◌▷◌, done, in_worker}
use llama_agents.Matching.{step_accepts_type}
use llama_agents.Dispatch.{add_or_enqueue_event}

infixr 65 ◌&◌
abbrev ◌&◌ : String → String → String
s & t = text_append s t

unfoldable pub mint_stream_id : World → BrokerState → List String → String → BrokerState × String
mint_stream_id w state scope_path step_name =
    let path = join ">" scope_path in
    let digest = w.sha256_hex (path & ":" & step_name & ":" & decimal state.stream_seq) in
    (record state { stream_seq = state.stream_seq + 1 }, "stream-" & prefix 16 digest)

unfoldable pub clear_collection_state : BrokerState → BrokerState
clear_collection_state state = record state { streams = []; collection_release_states = [] }

-- One for each step that accepts the type.
abbrev one_if : Bool → ℕ
one_if true = 1
one_if false = 0

unfoldable pub count_accepting : World → Class → List InternalStepConfig → ℕ
unfolding step_accepts_type
count_accepting w event_type configs = sum (
    map
      (λ cfg.
        one_if (step_accepts_type w cfg.accept_event_subclasses event_type cfg.accepted_events))
      configs)

unfoldable pub count_accepting_steps : World → BrokerState → Class → ℕ
unfolding count_accepting
count_accepting_steps w state event_type = count_accepting w event_type (values state.config.steps)

unfoldable pub take_threshold : Collect → Option ℕ
take_threshold collect = threshold collect.cardinality
  where
    threshold : Cardinality → Option ℕ
    threshold (Cardinality.take n) = some n
    threshold Cardinality.all = none

unfoldable pub release_state_key : String → String → String
release_state_key stream_id binding_id = stream_id & ":" & binding_id

unfoldable pub new_release_state : String → CollectionBinding → CollectionReleaseState
new_release_state stream_id binding = record {
  binding_id = binding.id;
  stream_id = stream_id;
  buffer = [];
  released = false;
}

-- The release state of a stream and binding, and the state in which it is stored.
unfoldable pub release_state_for :
    BrokerState → String → CollectionBinding → BrokerState × CollectionReleaseState
unfolding release_state_key new_release_state
release_state_for state stream_id binding =
    let key = release_state_key stream_id binding.id in
    let fresh = new_release_state stream_id binding in
    elim (lookup key state.collection_release_states) [
      | none ↦ (
        record state {
          collection_release_states = assign key fresh state.collection_release_states;
        },
        fresh,
      )
      | some release_state ↦ (state, release_state)
    ]

-- The members that an arrival releases, beside the release state with its flag.
unfoldable pub release_on_item :
    CollectionBinding → CollectionReleaseState → CollectionReleaseState × Option (List Event)
unfolding take_threshold
release_on_item binding release_state = elim (take_threshold binding.policy) [
  | none ↦ (release_state, none)
  | some threshold ↦
      if ltb (length release_state.buffer) threshold
      then (release_state, none)
      else (record release_state { released = true }, some (take threshold release_state.buffer))
]

-- The members that a close releases. The release state is dropped with the stream.
unfoldable pub release_on_close : CollectionBinding → CollectionReleaseState → Option (List Event)
unfolding take_threshold
release_on_close binding release_state =
    if release_state.released then none else (elim (take_threshold binding.policy) [
      | none ↦ some release_state.buffer
      | some threshold ↦ some (take threshold release_state.buffer)
    ])

module _ (w : World) (now_seconds : ℤ) where
  unfoldable pub payload_of :
      CollectionBinding → String → List Event → List String → CollectionReleasePayload
  payload_of binding stream_id events output_stack = record {
    binding_id = binding.id;
    stream_id = stream_id;
    events = events;
    output_scope_path = output_stack;
  }

  -- The attempt that invokes the collect step on a release.
  unfoldable pub release_attempt : CollectionReleasePayload → EventAttempt
  unfolding as_event payload_work_item_id attempt_of
  release_attempt payload = record (attempt_of (as_event payload)) {
    scope_path = payload.output_scope_path;
    collection_release_payload = some payload;
    work_item_id = some (payload_work_item_id payload);
  }

  unfoldable pub fire_collection_release :
      CollectionBinding
      → String
      → InternalStepWorkerState
      → List Event
      → List String
      → Emitting InternalStepWorkerState
  unfolding payload_of add_or_enqueue_event release_attempt
  fire_collection_release binding stream_id worker_state events output_stack =
      add_or_enqueue_event w now_seconds
        (release_attempt (payload_of binding stream_id events output_stack))
        (root binding.target_step) worker_state

  -- The release of one binding whose target collects, with the release state taken off.
  unfoldable pub release_binding :
      String → List String → CollectionBinding → InternalStepWorkerState → BrokerState → Reduced
  unfolding release_state_key new_release_state release_on_close fire_collection_release
  release_binding stream_id scope_path binding worker_state state =
      let key = release_state_key stream_id binding.id in
      let release_state =
        get_or (lookup key state.collection_release_states) (new_release_state stream_id binding) in
      let state' : BrokerState = record state {
        collection_release_states = delete key state.collection_release_states;
      } in
      elim (release_on_close binding release_state) [
        | none ↦ done state'
        | some release ↦
            in_worker binding.target_step state'
              (fire_collection_release binding stream_id worker_state release scope_path)
      ]

  -- The body of the loop over a closed stream's bindings.
  unfoldable pub close_binding : String → List String → CollectionBinding → BrokerState → Reduced
  unfolding release_binding
  close_binding stream_id scope_path binding state =
      elim (lookup binding.target_step state.workers) [
        | none ↦ done state
        | some worker_state ↦
            if is_none worker_state.config.collection_param
            then done state
            else release_binding stream_id scope_path binding worker_state state
      ]

  unfoldable pub close_bindings :
      String → List String → List CollectionBinding → BrokerState → Reduced
  unfolding close_binding
  close_bindings stream_id scope_path [] state = done state
  close_bindings stream_id scope_path (binding ∷ bindings) state =
      close_binding stream_id scope_path binding state
      ▷ close_bindings stream_id scope_path bindings

  unfoldable pub close_collection_stream : String → BrokerState → Reduced
  unfolding close_bindings
  close_collection_stream stream_id state = elim (lookup stream_id state.streams) [
    | none ↦ done state
    | some stream ↦
        close_bindings stream_id stream.scope_path
          (bindings_for_source state.config stream.source_step)
          (record state { streams = delete stream_id state.streams })
  ]

  unfoldable pub adjust_open_work_items : Option String → ℤ → BrokerState → Reduced
  unfolding close_collection_stream
  adjust_open_work_items none delta state = done state
  adjust_open_work_items (some stream_id) delta state = elim (lookup stream_id state.streams) [
    | none ↦ done state
    | some stream ↦
        let open_work_items = stream.open_work_items +ℤ delta in
        let state' : BrokerState = record state {
          streams =
              assign stream_id (record stream { open_work_items = open_work_items }) state.streams;
        } in
        if leb_ℤ open_work_items (pos 0)
        then close_collection_stream stream_id state'
        else done state'
  ]
