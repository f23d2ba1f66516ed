-- ===== src/Looping/Wakeups.antt =====
-- The scheduled wakeups of `_ControlLoopRunner` of workflows/runtime/control_loop/runner.py:
-- `schedule_tick`, `next_wakeup_timeout` and `pop_due_ticks`. The heap stands as the list of its
-- entries in the order in which `heapq` pops them.
use llama_agents.Prelude.{
  ℕ, ℤ, pos, ◌-ℤ◌, ltb_ℤ, leb_ℤ, ltb, Bool, ◌&&◌, ◌||◌, Option, none, some, List, [], ◌∷◌,
  if◌then◌else◌,
}
use llama_agents.Types.{WorkflowTick}

-- `(at_time, seq, tick)`
pub record Wakeup : Type 0 where
  pub at_time : ℤ
  pub seq : ℕ
  pub tick : WorkflowTick

-- The order of the tuples, which the sequence numbers decide before a tick is compared.
unfoldable pub before : Wakeup → Wakeup → Bool
before a b =
    ltb_ℤ a.at_time b.at_time
    || (leb_ℤ a.at_time b.at_time && leb_ℤ b.at_time a.at_time && ltb a.seq b.seq)

-- `heapq.heappush(heap, entry)`
unfoldable pub push : Wakeup → List Wakeup → List Wakeup
unfolding before
push a [] = a ∷ []
push a (b ∷ heap) = let rest = push a heap in if before a b then a ∷ b ∷ heap else b ∷ rest

unfoldable pub next_wakeup_timeout : ℤ → List Wakeup → Option ℤ
next_wakeup_timeout now [] = none
next_wakeup_timeout now (a ∷ heap) =
    let left = a.at_time -ℤ now in some (if ltb_ℤ (pos 0) left then left else pos 0)

-- The ticks that are due, and the heap that is left.
unfoldable pub pop_due_ticks : ℤ → List Wakeup → List WorkflowTick × List Wakeup
pop_due_ticks now [] = ([], [])
pop_due_ticks now (a ∷ heap) =
    let popped = pop_due_ticks now heap in
    if leb_ℤ a.at_time now then (a.tick ∷ popped.0, popped.1) else ([], a ∷ heap)
