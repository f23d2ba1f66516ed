-- ===== src/Storing/Appended.antt =====
-- An event that is stored comes behind the others of its run (`append_event` of
-- packages/llama-agents-server/src/llama_agents/server/_store/memory_workflow_store.py).
use llama_agents.Prelude.{
  ◌≡◌, sym, ap, ◌∙◌, inl, inr, ℤ, Bool, true, false, some, List, [], ◌∷◌, ◌++◌, append-nil,
  Bool-cases, if◌then◌else◌, lookup, lookup-assign, assign, get_or, last?, map, String, str_eq,
  eq_iff,
}
use llama_agents.Storing.Memory.{
  StoredEvent, EventEnvelope, MemoryStore, append_event, next_sequence,
}
use llama_agents.Storing.Subscribed.{IsPrefix}

-- What the store holds of a run.
abbrev pub held : String → MemoryStore → List StoredEvent
held run_id store = get_or (lookup run_id store.events) []

pub append_event-IsPrefix :
    (now : ℤ) (run_id : String) (event : EventEnvelope) (store : MemoryStore) (other_run : String)
    → IsPrefix (held other_run store) (held other_run (append_event now run_id event store))
unfolding append_event
append_event-IsPrefix now run_id event store other_run =
    elim (Bool-cases (str_eq run_id other_run)) [
      | inl same ↦ (
        stored ∷ [],
        looked_up
            ∙ chosen true same
            ∙ ap (λ k. held k store ++ stored ∷ []) ((eq_iff run_id other_run).0 same),
      )
      | inr other ↦ ([], looked_up ∙ chosen false other ∙ sym (append-nil (held other_run store)))
    ]
  where
    stored : StoredEvent
    stored = record {
      run_id = run_id;
      sequence = next_sequence (last? (map (λ e. e.sequence) (held run_id store)));
      timestamp = now;
      event = event;
    }

    extended : List StoredEvent
    extended = get_or (lookup run_id store.events) [] ++ stored ∷ []

    looked_up :
        get_or (lookup other_run (assign run_id extended store.events)) []
        ≡ get_or
            (if str_eq run_id other_run then some extended else lookup other_run store.events)
            []
    looked_up = ap (λ o. get_or o []) (lookup-assign run_id other_run extended store.events)

    chosen :
        (b : Bool)
        → str_eq run_id other_run ≡ b
        → get_or
            (if str_eq run_id other_run then some extended else lookup other_run store.events)
            []
          ≡ get_or (if b then some extended else lookup other_run store.events) []
    chosen b e = ap (λ b. get_or (if b then some extended else lookup other_run store.events) []) e
