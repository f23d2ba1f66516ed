-- ===== src/OpenWork.antt =====
-- No stream stays open without work (`open_work_items` of workflows/runtime/types/internal_state.py,
-- which workflows/runtime/control_loop/streams.py counts).
use llama_agents.Prelude.{
  ℕ, zero, suc, ℤ, pos, negsuc, leb_ℤ, ◌+ℤ◌, ◌==◌, ◌≡◌, refl, sym, ap, subst, inl, inr, String,
  false, Option, none, some, List, [], ◌∷◌, All, values, lookup, assign, delete, last?, length,
  Bool-cases, Option-cases, if◌then◌else◌, All-assign, All-delete, str_eq, arith,
}
use llama_agents.Types.{
  BrokerState, CollectionStreamInstance, Event, World, WorkflowTick, bindings_for_source,
}
use llama_agents.Prelude.{delete-assign}
use llama_agents.Effects.{Reduced, Keeps, Keeps-map, Keeps-▷, Keeps-if, done}
use llama_agents.Streams.{adjust_open_work_items, close_collection_stream, clear_collection_state}
use llama_agents.StepResult.{open_child_stream, successors, binding_ids}
use llama_agents.StepResult.Threading.{Scope}
use llama_agents.Reduce.{reduce_tick}
use llama_agents.OpenStreams.{Streams, recounted, adjusted, adjust-streams, close-streams}
use llama_agents.Framed.Interface.{StateInvariant}
use llama_agents.Framed.Ticks.{reduce_tick-Q}

abbrev pub HasOpenWork : CollectionStreamInstance → Type 0
HasOpenWork stream = leb_ℤ stream.open_work_items (pos 0) ≡ false

abbrev pub AllOpen : Streams → Type 0
AllOpen streams = All HasOpenWork (values streams)

adjusted-AllOpen :
    (stream_id : Option String) (delta : ℤ) (streams : Streams)
    → AllOpen streams
    → AllOpen (adjusted stream_id delta streams)
adjusted-AllOpen none delta streams h = h
adjusted-AllOpen (some stream_id) delta streams h = recount (lookup stream_id streams)
  where
    recount :
        (found : Option CollectionStreamInstance)
        → AllOpen (recounted stream_id delta streams found)
    recount none = h
    recount (some stream) = elim (Bool-cases (leb_ℤ (stream.open_work_items +ℤ delta) (pos 0))) [
      | inl closes ↦ rw closes (All-delete HasOpenWork stream_id streams h)
      | inr stays ↦ rw stays (All-assign HasOpenWork stream_id _ streams stays h)
    ]

-- All streams but the first of one id.
abbrev OthersOpen : String → Streams → Type 0
OthersOpen k streams = AllOpen (delete k streams)

OthersOpen-delete : (k j : String) (d : Streams) → OthersOpen k d → OthersOpen k (delete j d)
unfolding delete
OthersOpen-delete k j [] h = tt
OthersOpen-delete k j ((i, x) ∷ d) h = elim (Bool-cases (str_eq i j)) [
  | inl here ↦ elim (Bool-cases (str_eq i k)) [
    | inl same ↦ rw here (All-delete HasOpenWork k d (rw same at h))
    | inr other ↦ rw here ((rw other at h).1)
  ]
  | inr there ↦ elim (Bool-cases (str_eq i k)) [
    | inl same ↦ rw (there, same) (All-delete HasOpenWork j d (rw same at h))
    | inr other ↦ rw (there, other) ((rw other at h).0, OthersOpen-delete k j d (rw other at h).1)
  ]
]

OthersOpen-assign :
    (k j : String) (v : CollectionStreamInstance) (d : Streams)
    → HasOpenWork v
    → OthersOpen k d
    → OthersOpen k (assign j v d)
unfolding delete assign
OthersOpen-assign k j v [] p h = elim (Bool-cases (str_eq j k)) [
  | inl same ↦ rw same tt
  | inr other ↦ rw other (p, tt)
]
OthersOpen-assign k j v ((i, x) ∷ d) p h = elim (Bool-cases (str_eq i j)) [
  | inl here ↦ elim (Bool-cases (str_eq i k)) [
    | inl same ↦ rw (here, same) (rw same at h)
    | inr other ↦ rw (here, other) (p, (rw other at h).1)
  ]
  | inr there ↦ elim (Bool-cases (str_eq i k)) [
    | inl same ↦ rw (there, same) (All-assign HasOpenWork j v d p (rw same at h))
    | inr other ↦
        rw (there, other) ((rw other at h).0, OthersOpen-assign k j v d p (rw other at h).1)
  ]
]

adjusted-OthersOpen :
    (k : String) (stream_id : Option String) (delta : ℤ) (streams : Streams)
    → OthersOpen k streams
    → OthersOpen k (adjusted stream_id delta streams)
adjusted-OthersOpen k none delta streams h = h
adjusted-OthersOpen k (some stream_id) delta streams h = recount (lookup stream_id streams)
  where
    recount :
        (found : Option CollectionStreamInstance)
        → OthersOpen k (recounted stream_id delta streams found)
    recount none = h
    recount (some stream) = elim (Bool-cases (leb_ℤ (stream.open_work_items +ℤ delta) (pos 0))) [
      | inl closes ↦ rw closes (OthersOpen-delete k stream_id streams h)
      | inr stays ↦ rw stays (OthersOpen-assign k stream_id _ streams stays h)
    ]

delete-missing : (k : String) (d : Streams) → lookup k d ≡ none → delete k d ≡ d
unfolding lookup delete
delete-missing k [] e = refl
delete-missing k ((i, x) ∷ d) e = elim (Bool-cases (str_eq i k)) [
  | inl same ↦ cc
  | inr other ↦ rw other (ap (◌∷◌ (i, x)) (delete-missing k d (rw other at e)))
]

abbrev pub StreamsOpen : BrokerState → Type 0
StreamsOpen s = AllOpen s.streams

module _ (w : World) (now : ℤ) where
  adjust-StreamsOpen :
      (stream_id : Option String) (delta : ℤ) (s : BrokerState)
      → StreamsOpen s
      → Keeps StreamsOpen (adjust_open_work_items w now stream_id delta s)
  adjust-StreamsOpen stream_id delta s h =
      Keeps-map _ StreamsOpen _
        (λ s' e. subst AllOpen (sym e) (adjusted-AllOpen stream_id delta s.streams h))
        (adjust-streams w now stream_id delta s)

  adjust-OthersOpen :
      (k : String) (stream_id : Option String) (delta : ℤ) (s : BrokerState)
      → OthersOpen k s.streams
      → Keeps (λ s'. OthersOpen k s'.streams) (adjust_open_work_items w now stream_id delta s)
  adjust-OthersOpen k stream_id delta s h =
      Keeps-map _ (λ (s' : BrokerState). OthersOpen k s'.streams) _
        (λ s' e. subst (OthersOpen k) (sym e) (adjusted-OthersOpen k stream_id delta s.streams h))
        (adjust-streams w now stream_id delta s)

  -- Closing the one stream that may be without work.
  close-StreamsOpen :
      (k : String) (s : BrokerState)
      → OthersOpen k s.streams
      → Keeps StreamsOpen (close_collection_stream w now k s)
  unfolding close_collection_stream
  close-StreamsOpen k s h = elim (Option-cases (lookup k s.streams)) [
    | inl missing ↦
        rw (missing, close_collection_stream) (subst AllOpen (delete-missing k s.streams missing) h)
    | inr (stream, e) ↦
        Keeps-map _ StreamsOpen _ (λ s' same. subst AllOpen (sym same) h)
          (close-streams w now k stream s e)
  ]

  open-StreamsOpen :
      (step_name : String) (scope : Scope) (emitted : List Event) (stream_id : String)
      (s : BrokerState)
      → StreamsOpen s
      → Keeps StreamsOpen (open_child_stream w now step_name scope emitted stream_id s)
  unfolding open_child_stream
  open-StreamsOpen step_name scope emitted stream_id s h =
      let seed = successors w s emitted in
      let accepting = binding_ids (bindings_for_source s.config step_name) in
      let stream : CollectionStreamInstance = record {
        stream_id = stream_id;
        source_step = step_name;
        scope_path = scope.trigger_stack;
        open_work_items = pos seed;
        accepting_binding_ids = accepting;
      } in
      let opened : BrokerState = record s { streams = assign stream_id stream s.streams } in
      let parent = last? scope.trigger_stack in
      let delta = pos (length accepting) +ℤ negsuc 0 in
      let rest : BrokerState → Reduced =
        λ s'. if seed == 0 then close_collection_stream w now stream_id s' else done s' in
      elim (Bool-cases (seed == 0)) [
        | inl empty ↦
            Keeps-▷ (λ (s' : BrokerState). OthersOpen stream_id s'.streams) StreamsOpen _ rest
              (adjust-OthersOpen stream_id parent delta opened (
                subst AllOpen (sym (delete-assign stream_id stream s.streams))
                  (All-delete HasOpenWork stream_id s.streams h)))
              (λ s' h'.
                Keeps-if StreamsOpen (seed == 0) (close_collection_stream w now stream_id s')
                  (done s') (λ e. close-StreamsOpen stream_id s' h') (λ seeded. cc))
        | inr seeded ↦
            Keeps-▷ StreamsOpen StreamsOpen _ rest
              (adjust-StreamsOpen parent delta opened
                (All-assign HasOpenWork stream_id stream s.streams (has_seed seed seeded) h))
              (λ s' h'.
                Keeps-if StreamsOpen (seed == 0) (close_collection_stream w now stream_id s')
                  (done s') (λ e. cc) (λ e. h'))
      ]
    where
      has_seed : (n : ℕ) → (n == 0) ≡ false → leb_ℤ (pos n) (pos 0) ≡ false
      has_seed zero e = cc
      has_seed (suc n) e = ground arith

  streams_open : StateInvariant w now StreamsOpen
  unfolding clear_collection_state
  streams_open = record {
    with_workers = λ s workers h. h;
    with_running = λ s b h. h;
    with_releases = λ s releases h. h;
    next_work_item = λ s h. h;
    next_stream = λ s h. h;
    cleared = λ s h. tt;
    adjusted = adjust-StreamsOpen;
    opened = open-StreamsOpen;
  }

  -- If every open stream has open work before a tick, then every open stream has some after it,
  -- whatever the tick: no stream outlives its last work item.
  pub reduce_tick-StreamsOpen :
      (run_id : Option String) (tick : WorkflowTick) (s : BrokerState)
      → StreamsOpen s
      → Keeps StreamsOpen (reduce_tick w run_id tick s now)
  reduce_tick-StreamsOpen run_id tick s h =
      reduce_tick-Q w now StreamsOpen streams_open run_id tick s h
