-- ===== src/Storing/Reading.antt =====
-- `subscribe_events` of packages/llama-agents-server/src/llama_agents/server/_store/
-- memory_workflow_store.py, on what the store holds of a run at the subscription and whenever the
-- subscriber looks again.
use llama_agents.Prelude.{
  ℕ, zero, suc, ℤ, pos, leb_ℤ, Bool, Option, none, some, List, [], ◌∷◌, ◌++◌, member, get_or,
  if◌then◌else◌,
}
use llama_agents.Storing.Memory.{StoredEvent}

-- `xs[n:]`
abbrev pub drop {ℓ} : {A : Type ℓ} → ℕ → List A → List A
drop zero xs = xs
drop (suc n) [] = []
drop (suc n) (x ∷ xs) = drop n xs

unfoldable pub is_terminal_event : StoredEvent → Bool
is_terminal_event e = member (get_or e.event.types [] ++ e.event.type ∷ []) "StopEvent"

-- The loop that skips what is not later than `after_sequence`, at the index `i`.
unfoldable pub cursor_from : ℤ → ℕ → ℕ → List StoredEvent → ℕ
cursor_from after_sequence i cursor [] = cursor
cursor_from after_sequence i cursor (e ∷ events) =
    cursor_from after_sequence (suc i)
      (if leb_ℤ (pos e.sequence) after_sequence then suc i else cursor) events

unfoldable pub start_cursor : ℤ → List StoredEvent → ℕ
unfolding cursor_from
start_cursor after_sequence all_events =
    if leb_ℤ (pos 0) after_sequence then cursor_from after_sequence 0 0 all_events else 0

-- The loop over a batch: what it yields, and the cursor unless a terminal event ended it.
unfoldable pub yield_batch : List StoredEvent → ℕ → List StoredEvent × Option ℕ
unfolding is_terminal_event
yield_batch [] cursor = ([], some cursor)
yield_batch (e ∷ batch) cursor =
    let rest = yield_batch batch (suc cursor) in
    if is_terminal_event e then (e ∷ [], none) else (e ∷ rest.0, rest.1)

-- `while True`, over what the store holds each time that the subscriber looks.
unfoldable pub yield_all : List (List StoredEvent) → ℕ → List StoredEvent
unfolding yield_batch
yield_all [] cursor = []
yield_all (all_events ∷ later) cursor =
    let batch = yield_batch (drop cursor all_events) cursor in
    elim batch.1 [ none ↦ batch.0 | some cursor' ↦ batch.0 ++ yield_all later cursor' ]

unfoldable pub subscribe_events : ℤ → List StoredEvent → List (List StoredEvent) → List StoredEvent
unfolding start_cursor yield_all
subscribe_events after_sequence at_first looks =
    yield_all looks (start_cursor after_sequence at_first)
