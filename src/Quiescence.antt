-- ===== src/Quiescence.antt =====
-- The idle check and the detection of stuck streams (`_check_idle_state` and
-- `_process_idle_check_tick` of workflows/runtime/control_loop/reduce.py, `_detect_stuck_streams` of
-- streams.py beside it).
use llama_agents.Prelude.{
  Among, ◌≡◌, refl, ◌⊎◌, inl, inr, true, false, none, some, List, [], ◌∷◌, All, find, lookup,
  values, Bool-cases, Option-cases, ◌↔◌, Option, some, String, Bool, not, any, ◌&&◌, is_some,
  is_none, and-eq-true, arith, ap, ◌∙◌,
}
use llama_agents.Types.{
  BrokerState, CollectionReleaseState, CollectionStreamInstance, InternalStepWorkerState,
  StepWorkerWaiter,
}
use llama_agents.Stuck.{
  is_orphaned, has_in_stream_waiter, is_in_stream_waiter, leaked, detect_stuck_streams,
}

-- A release that has fired, or whose stream is open and so can still fire it.
abbrev pub IsServed : BrokerState → CollectionReleaseState → Type 0
IsServed s r =
    (r.released ≡ true) ⊎ ((x : CollectionStreamInstance) × (lookup r.stream_id s.streams ≡ some x))

-- A waiter of some step that no event has resolved and that has not timed out, with an open stream
-- in its scope.
abbrev pub CanResume : BrokerState → Type 0
CanResume s =
    (ws : InternalStepWorkerState) × Among ws (values s.workers)
    × ((waiter : StepWorkerWaiter) × Among waiter ws.collected_waiters
        × (waiter.resolved_event ≡ none)
        × (waiter.timed_out ≡ false)
        × ((sid : String) × Among sid waiter.scope_path
            × ((x : CollectionStreamInstance) × (lookup sid s.streams ≡ some x))))

-- Nothing is stuck: every pending release can still fire, and if streams are open, then a waiter can
-- resume work inside one of them.
abbrev pub IsHealthy : BrokerState → Type 0
IsHealthy s =
    All (IsServed s) (values s.collection_release_states) × ((values s.streams ≡ []) ⊎ CanResume s)

served : (s : BrokerState) (r : CollectionReleaseState) → is_orphaned s r ≡ false → IsServed s r
unfolding is_orphaned
served s r e = elim (Bool-cases r.released) [
  | inl fired ↦ inl fired
  | inr pending ↦ elim (Option-cases (lookup r.stream_id s.streams)) [
    | inl gone ↦ let bad : true ≡ false = rw (pending, gone) at e in cc
    | inr found ↦ inr found
  ]
]

none_orphaned :
    (s : BrokerState) (rs : List CollectionReleaseState)
    → find (is_orphaned s) rs ≡ none
    → All (IsServed s) rs
none_orphaned s [] e = tt
none_orphaned s (r ∷ rs) e = elim (Bool-cases (is_orphaned s r)) [
  | inl orphan ↦ cc
  | inr fine ↦ (served s r fine, none_orphaned s rs (rw fine at e))
]

found-Among :
    {A : Type 0} (p : A → Bool) (xs : List A)
    → any p xs ≡ true
    → (x : A) × Among x xs × (p x ≡ true)
found-Among p [] e = absurd (ground (arith, e))
found-Among p (x ∷ xs) e = elim (Bool-cases (p x)) [
  | inl here ↦ (x, inl refl, here)
  | inr not_here ↦ let (y, m, h) = found-Among p xs (rw not_here at e) in (y, inr m, h)
]

Among-any :
    {A : Type 0} (p : A → Bool) (x : A) (xs : List A) → Among x xs → p x ≡ true → any p xs ≡ true
Among-any p x [] m h = absurd m
Among-any p x (y ∷ ys) (inl same) h = rw (ap p same ∙ h) refl
Among-any p x (y ∷ ys) (inr later) h = ground (arith, Among-any p x ys later h)

is_some→some : {A : Type 0} (o : Option A) → is_some o ≡ true → (a : A) × (o ≡ some a)
is_some→some none e = absurd (ground (arith, e))
is_some→some (some a) e = (a, refl)

none_if : {A : Type 0} (o : Option A) → is_none o ≡ true → o ≡ none
none_if none e = refl
none_if (some a) e = absurd (ground (arith, e))

denied : (b : Bool) → not b ≡ true → b ≡ false
denied b h = ground (arith, h)

waits-CanResume : (s : BrokerState) → has_in_stream_waiter s ≡ true → CanResume s
unfolding has_in_stream_waiter is_in_stream_waiter
waits-CanResume s e =
    let (ws, m, h) =
      found-Among (λ ws. any (is_in_stream_waiter s) ws.collected_waiters) (values s.workers) e in
    let (x, m', h') = found-Among (is_in_stream_waiter s) ws.collected_waiters h in
    let (unresolved, in_scope) =
      and-eq-true (is_none x.resolved_event && not x.timed_out)
        (any (λ sid. is_some (lookup sid s.streams)) x.scope_path) h' in
    let (waits, in_time) = and-eq-true (is_none x.resolved_event) (not x.timed_out) unresolved in
    let (sid, m'', open_one) =
      found-Among (λ sid. is_some (lookup sid s.streams)) x.scope_path in_scope in
    (
      ws,
      m,
      (
        x,
        m',
        none_if x.resolved_event waits,
        denied x.timed_out in_time,
        (sid, m'', is_some→some (lookup sid s.streams) open_one),
      ),
    )

CanResume-waits : (s : BrokerState) → CanResume s → has_in_stream_waiter s ≡ true
unfolding has_in_stream_waiter is_in_stream_waiter
CanResume-waits s (ws, m, (x, m', waits, in_time, (sid, m'', (stream, found)))) =
    Among-any (λ ws. any (is_in_stream_waiter s) ws.collected_waiters) ws (values s.workers) m
      (Among-any (is_in_stream_waiter s) x ws.collected_waiters m' (
        rw (waits, in_time)
          (Among-any (λ sid. is_some (lookup sid s.streams)) sid x.scope_path m'' (rw found refl))))

leaked-none :
    (s : BrokerState) (xs : List CollectionStreamInstance)
    → leaked s xs ≡ none
    → (xs ≡ []) ⊎ (has_in_stream_waiter s ≡ true)
unfolding leaked
leaked-none s [] e = inl refl
leaked-none s (x ∷ xs) e = elim (Bool-cases (has_in_stream_waiter s)) [
  | inl waits ↦ inr waits
  | inr nobody ↦ cc
]

still_served :
    (s : BrokerState) (r : CollectionReleaseState) → IsServed s r → is_orphaned s r ≡ false
unfolding is_orphaned
still_served s r (inl fired) = rw fired refl
still_served s r (inr (x, found)) = ground (arith, found)

all_served :
    (s : BrokerState) (rs : List CollectionReleaseState)
    → All (IsServed s) rs
    → find (is_orphaned s) rs ≡ none
all_served s [] h = refl
all_served s (r ∷ rs) h = rw (still_served s r h.0) (all_served s rs h.1)

not_leaked :
    (s : BrokerState) (xs : List CollectionStreamInstance)
    → (xs ≡ []) ⊎ (has_in_stream_waiter s ≡ true)
    → leaked s xs ≡ none
unfolding leaked
not_leaked s [] h = refl
not_leaked s (x ∷ xs) (inl nothing) = cc
not_leaked s (x ∷ xs) (inr waits) = rw waits refl

sum_map : {A B C : Type 0} → (B → C) → A ⊎ B → A ⊎ C
sum_map f (inl a) = inl a
sum_map f (inr b) = inr (f b)

-- The detection finds nothing exactly if nothing is stuck: every release state has fired or its
-- stream is open; and no stream is open, or some step has a waiter that no event has resolved, that
-- has not timed out, and that has an open stream in its scope.
pub detect_stuck_streams-IsHealthy :
    (s : BrokerState) → (detect_stuck_streams s ≡ none) ↔ IsHealthy s
unfolding detect_stuck_streams
detect_stuck_streams-IsHealthy s = (healthy, undetected)
  where
    healthy : detect_stuck_streams s ≡ none → IsHealthy s
    healthy e = elim (Option-cases (find (is_orphaned s) (values s.collection_release_states))) [
      | inl fine ↦ (
        none_orphaned s (values s.collection_release_states) fine,
        sum_map (waits-CanResume s)
            (leaked-none s (values s.streams) (rw (fine, detect_stuck_streams) at e)),
      )
      | inr (r, bad) ↦ cc
    ]

    undetected : IsHealthy s → detect_stuck_streams s ≡ none
    undetected (served_all, waits) =
        rw (all_served s (values s.collection_release_states) served_all, detect_stuck_streams)
          (not_leaked s (values s.streams) (sum_map (CanResume-waits s) waits))
