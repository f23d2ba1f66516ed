-- ===== src/Storing/Subscribed.antt =====
-- What a subscriber receives (`subscribe_events` of packages/llama-agents-server/src/llama_agents/
-- server/_store/memory_workflow_store.py).
use llama_agents.Prelude.{
  ℕ, zero, suc, ◌+◌, ◌≤◌, ◌≡◌, refl, sym, ap, ◌∙◌, inl, inr, ℤ, pos, leb_ℤ, Bool, true, false,
  Option, none, some, List, [], ◌∷◌, ◌++◌, any, length, length-append, append-nil, append_assoc,
  arith, Bool-cases, if◌then◌else◌, if_case,
}
use llama_agents.Storing.Memory.{StoredEvent}
use llama_agents.Storing.Reading.{
  drop, is_terminal_event, cursor_from, start_cursor, yield_batch, yield_all, subscribe_events,
}

-- The events up to the first terminal one, which is included.
abbrev pub up_to_terminal : List StoredEvent → List StoredEvent
up_to_terminal [] = []
up_to_terminal (e ∷ events) =
    let rest = up_to_terminal events in if is_terminal_event e then e ∷ [] else e ∷ rest

-- Events are only added behind the others.
abbrev pub IsPrefix : List StoredEvent → List StoredEvent → Type 0
IsPrefix xs ys = (more : List StoredEvent) × (ys ≡ xs ++ more)

abbrev pub Growing : List StoredEvent → List (List StoredEvent) → Type 0
Growing events [] = Unit
Growing events (next ∷ later) = IsPrefix events next × Growing next later

abbrev pub last_look : List StoredEvent → List (List StoredEvent) → List StoredEvent
last_look events [] = events
last_look events (next ∷ later) = last_look next later

last-IsPrefix :
    (events : List StoredEvent) (later : List (List StoredEvent))
    → Growing events later
    → IsPrefix events (last_look events later)
last-IsPrefix events [] g = ([], sym (append-nil events))
last-IsPrefix events (next ∷ later) g =
    let (more, e) = last-IsPrefix next later g.1 in
    (g.0.0 ++ more, e ∙ ap (λ xs. xs ++ more) g.0.1 ∙ append_assoc events g.0.0 more)

up_to-append :
    (xs ys : List StoredEvent)
    → up_to_terminal (xs ++ ys)
      ≡ (if any is_terminal_event xs then up_to_terminal xs else xs ++ up_to_terminal ys)
up_to-append [] ys = refl
up_to-append (x ∷ xs) ys = ground (arith, up_to-append xs ys)

cursor_zero : (n : ℕ) → n ≡ n + 0
cursor_zero n = omega arith

cursor_suc : (m n : ℕ) → suc m + n ≡ m + suc n
cursor_suc m n = omega arith

yield_batch-up_to :
    (batch : List StoredEvent) (cursor : ℕ)
    → yield_batch batch cursor ≡ (
      up_to_terminal batch,
      if any is_terminal_event batch then none else some (cursor + length batch),
    )
unfolding yield_batch
yield_batch-up_to [] cursor = ap (λ n. ([], some n)) (cursor_zero cursor)
yield_batch-up_to (e ∷ batch) cursor = elim (Bool-cases (is_terminal_event e)) [
  | inl ends ↦ rw ends refl
  | inr on ↦
      rw (on, yield_batch-up_to batch (suc cursor))
        (ap (λ n. (e ∷ up_to_terminal batch, if any is_terminal_event batch then none else some n))
          (cursor_suc cursor (length batch)))
]

drop-append :
    (n : ℕ) (xs ys : List StoredEvent) → n ≤ length xs → drop n (xs ++ ys) ≡ drop n xs ++ ys
drop-append zero xs ys h = refl
drop-append (suc n) [] ys h = absurd (omega (arith, h))
drop-append (suc n) (x ∷ xs) ys h = drop-append n xs ys (omega (arith, h))

drop-all : (xs ys : List StoredEvent) → drop (length xs) (xs ++ ys) ≡ ys
drop-all [] ys = refl
drop-all (x ∷ xs) ys = drop-all xs ys

length-drop : (n : ℕ) (xs : List StoredEvent) → n ≤ length xs → n + length (drop n xs) ≡ length xs
length-drop zero xs h = omega arith
length-drop (suc n) [] h = absurd (omega (arith, h))
length-drop (suc n) (x ∷ xs) h = omega (arith, length-drop n xs (omega (arith, h)))

up_to_none : (xs : List StoredEvent) → any is_terminal_event xs ≡ false → up_to_terminal xs ≡ xs
up_to_none [] h = refl
up_to_none (x ∷ xs) h = ground (arith, h, up_to_none xs)

-- How the loop goes on after a batch.
abbrev after_batch : List (List StoredEvent) → List StoredEvent × Option ℕ → List StoredEvent
after_batch later batch = elim batch.1 [
  | none ↦ batch.0
  | some cursor' ↦ batch.0 ++ yield_all later cursor'
]

one_look :
    (events : List StoredEvent) (later : List (List StoredEvent)) (cursor : ℕ)
    → cursor ≤ length events
    → (g : Growing events later)
    → yield_all later (length events) ≡ up_to_terminal (last-IsPrefix events later g).0
    → yield_all (events ∷ later) cursor ≡ up_to_terminal (drop cursor (last_look events later))
unfolding yield_all
one_look events later cursor h g rest =
    ap (after_batch later) (yield_batch-up_to (drop cursor events) cursor)
    ∙ by_end (any is_terminal_event (drop cursor events)) refl
    ∙ sym seen
  where
    grown : IsPrefix events (last_look events later)
    grown = last-IsPrefix events later g

    seen : up_to_terminal (drop cursor (last_look events later)) ≡ (
        if any is_terminal_event (drop cursor events)
        then up_to_terminal (drop cursor events)
        else drop cursor events ++ up_to_terminal grown.0)
    seen =
        ap (λ xs. up_to_terminal (drop cursor xs)) grown.1
        ∙ ap up_to_terminal (drop-append cursor events grown.0 h)
        ∙ up_to-append (drop cursor events) grown.0

    by_end :
        (b : Bool)
        → any is_terminal_event (drop cursor events) ≡ b
        → after_batch later (
          up_to_terminal (drop cursor events),
          if b then none else some (cursor + length (drop cursor events)),
        )
          ≡ (if b
              then up_to_terminal (drop cursor events)
              else drop cursor events ++ up_to_terminal grown.0)
    by_end true e = refl
    by_end false e =
        ap (λ xs. xs ++ yield_all later (cursor + length (drop cursor events)))
          (up_to_none (drop cursor events) e)
        ∙ ap (λ n. drop cursor events ++ yield_all later n) (length-drop cursor events h)
        ∙ ap (λ xs. drop cursor events ++ xs) rest

IsPrefix-length : (xs ys : List StoredEvent) → IsPrefix xs ys → length xs ≤ length ys
IsPrefix-length xs ys (more, e) = omega (arith, ap length e, length-append xs more)

yield_all-up_to :
    (events : List StoredEvent) (later : List (List StoredEvent)) (cursor : ℕ)
    → cursor ≤ length events
    → Growing events later
    → yield_all (events ∷ later) cursor ≡ up_to_terminal (drop cursor (last_look events later))
unfolding yield_all last-IsPrefix
yield_all-up_to events [] cursor h g = one_look events [] cursor h g refl
yield_all-up_to events (next ∷ later) cursor h g = one_look events (next ∷ later) cursor h g (
    yield_all-up_to next later (length events) (IsPrefix-length events next g.0) g.1
    ∙ ap (λ xs. up_to_terminal (drop (length events) xs)) (last-IsPrefix events (next ∷ later) g).1
    ∙ ap up_to_terminal (drop-all events (last-IsPrefix events (next ∷ later) g).0))

cursor_from-bounded :
    (after_sequence : ℤ) (i cursor : ℕ) (events : List StoredEvent)
    → cursor ≤ i
    → cursor_from after_sequence i cursor events ≤ i + length events
unfolding cursor_from
cursor_from-bounded after_sequence i cursor [] h = omega (arith, h)
cursor_from-bounded after_sequence i cursor (e ∷ events) h = omega (
  arith,
  cursor_from-bounded after_sequence (suc i)
      (if leb_ℤ (pos e.sequence) after_sequence then suc i else cursor) events (ground (arith, h)),
)

start_cursor-bounded :
    (after_sequence : ℤ) (events : List StoredEvent)
    → start_cursor after_sequence events ≤ length events
unfolding start_cursor
start_cursor-bounded after_sequence events =
    if_case (λ n. n ≤ length events) (leb_ℤ (pos 0) after_sequence) _ _
      (λ given. omega (arith, cursor_from-bounded after_sequence 0 0 events (omega arith)))
      (λ none_given. omega arith)

-- If a run's events are only added behind the others while a subscriber looks, at least once, then it
-- receives those from its first position on that its last look shows, in order and once each, up to
-- the first terminal one.
pub subscribe_events-up_to_terminal :
    (after_sequence : ℤ) (at_first events : List StoredEvent) (later : List (List StoredEvent))
    → IsPrefix at_first events
    → Growing events later
    → subscribe_events after_sequence at_first (events ∷ later)
      ≡ up_to_terminal (drop (start_cursor after_sequence at_first) (last_look events later))
unfolding subscribe_events
subscribe_events-up_to_terminal after_sequence at_first events later first g =
    yield_all-up_to events later (start_cursor after_sequence at_first)
      (omega (
        arith,
        start_cursor-bounded after_sequence at_first,
        IsPrefix-length at_first events first,
      ))
      g
