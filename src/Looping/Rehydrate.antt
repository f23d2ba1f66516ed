-- ===== src/Looping/Rehydrate.antt =====
-- `BrokerState.rehydrate_with_ticks` of workflows/runtime/types/internal_state.py: steps whose
-- waiters lost what they wait for in a serialization are run again.
use Prim.Native.Nat.{Ordering}
use Prim.Native.String.{compare}
use llama_agents.Prelude.{
  String, Bool, true, false, ◌&&◌, none, some, List, [], ◌∷◌, ◌++◌, if◌then◌else◌, is_empty,
  sorted_keys, lookup,
}
use llama_agents.Types.{BrokerState, StepWorkerWaiter, root, WorkflowTick}

-- `sorted(waiters, key=lambda x: x.waiter_id)`, which is stable
unfoldable pub id_le : StepWorkerWaiter → StepWorkerWaiter → Bool
id_le a b = elim (compare a.waiter_id b.waiter_id) [ Ordering.gt ↦ false | _ ↦ true ]

unfoldable pub insert_waiter : StepWorkerWaiter → List StepWorkerWaiter → List StepWorkerWaiter
unfolding id_le
insert_waiter a [] = a ∷ []
insert_waiter a (b ∷ bs) =
    let rest = insert_waiter a bs in if id_le a b then a ∷ b ∷ bs else b ∷ rest

unfoldable pub sort_waiters : List StepWorkerWaiter → List StepWorkerWaiter
unfolding insert_waiter
sort_waiters [] = []
sort_waiters (a ∷ rest) = insert_waiter a (sort_waiters rest)

unfoldable pub ping_tick : String → StepWorkerWaiter → WorkflowTick
ping_tick step_name waiter = WorkflowTick.add_event (record {
  event = waiter.event;
  step_id = some (root step_name);
  bound_events = waiter.bound_events;
  attempts = none;
  first_attempt_at = none;
  last_exception = none;
  last_failed_at = none;
  recovery_counts = [];
  scope_path = waiter.scope_path;
  collection_release_payload = waiter.collection_release_payload;
  work_item_id = waiter.work_item_id;
})

unfoldable pub ping_waiters : String → List StepWorkerWaiter → List WorkflowTick
unfolding ping_tick
ping_waiters step_name [] = []
ping_waiters step_name (waiter ∷ waiters) =
    let rest = ping_waiters step_name waiters in
    if waiter.has_requirements && is_empty waiter.requirements
    then ping_tick step_name waiter ∷ rest
    else rest

unfoldable pub ping_steps : BrokerState → List String → List WorkflowTick
unfolding ping_waiters sort_waiters
ping_steps state [] = []
ping_steps state (step_name ∷ names) = elim (lookup step_name state.workers) [
  | none ↦ ping_steps state names
  | some ws ↦ ping_waiters step_name (sort_waiters ws.collected_waiters) ++ ping_steps state names
]

unfoldable pub rehydrate_with_ticks : BrokerState → List WorkflowTick
unfolding ping_steps
rehydrate_with_ticks state = ping_steps state (sorted_keys state.workers)
