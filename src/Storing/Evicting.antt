-- ===== src/Storing/Evicting.antt =====
-- What is evicted: `_evict_oldest_completed` of
-- packages/llama-agents-server/src/llama_agents/server/_store/memory_workflow_store.py.
use llama_agents.Prelude.{
  Unique, ℕ, suc, ◌≤◌, ◌≡◌, refl, sym, ap, ◌∙◌, inl, inr, String, true, false, Option, none, some,
  some-injective, List, [], ◌∷◌, length, leb, str_eq, eq_iff, member, arith, Bool-cases,
  if◌then◌else◌, if_case, Dict, lookup, delete,
}
use llama_agents.Storing.Handlers.{is_terminal_status, PersistentHandler}
use llama_agents.Storing.Memory.{
  MemoryStore, evict_run, evict_run_state_stores, evict_popped, evict_over,
}
use llama_agents.Storing.Unique.{lookup-delete_other, lookup-delete_same, Unique-delete}

abbrev pub Handlers : Type 0
Handlers = Dict PersistentHandler

-- The ids of finished handlers are among some.
abbrev pub IsQueued : Handlers → List String → Type 0
IsQueued d ids =
    (id : String) (h : PersistentHandler)
    → lookup id d ≡ some h
    → is_terminal_status h.status ≡ true
    → member ids id ≡ true

-- Of some handlers, only finished ones are missing.
pub record IsPruned (d d' : Handlers) : Type 0 where
  pub unique : Unique d'
  pub kept : (id : String) (h : PersistentHandler) → lookup id d' ≡ some h → lookup id d ≡ some h
  pub unfinished :
      (id : String) (h : PersistentHandler)
      → lookup id d ≡ some h
      → is_terminal_status h.status ≡ false
      → lookup id d' ≡ some h

pub same-IsPruned : (d : Handlers) → Unique d → IsPruned d d
same-IsPruned d u = record { unique = u; kept = λ id h e. e; unfinished = λ id h e t. e }

IsPruned-trans : (d e f : Handlers) → IsPruned d e → IsPruned e f → IsPruned d f
IsPruned-trans d e f p q = record {
  unique = q.unique;
  kept = λ id h found. p.kept id h (q.kept id h found);
  unfinished = λ id h found t. q.unfinished id h (p.unfinished id h found t) t;
}

-- An id whose handler is finished is not the one that was popped.
pub record IsPopped (id : String) (d d' : Handlers) : Type 0 where
  pub pruned : IsPruned d d'
  pub gone :
      (j : String) (h : PersistentHandler)
      → lookup j d' ≡ some h
      → is_terminal_status h.status ≡ true
      → str_eq id j ≡ false

apart :
    (d : Handlers) (id j : String) (h h' : PersistentHandler)
    → lookup id d ≡ some h
    → lookup j d ≡ some h'
    → is_terminal_status h.status ≡ false
    → is_terminal_status h'.status ≡ true
    → str_eq id j ≡ false
apart d id j h h' e f t t' = elim (Bool-cases (str_eq id j)) [
  | inl same ↦
      let one = some-injective h h' (sym e ∙ ap (λ k. lookup k d) ((eq_iff id j).0 same) ∙ f) in
      absurd (true≢false (sym t' ∙ sym (ap (λ x. is_terminal_status x.status) one) ∙ t))
  | inr other ↦ other
]
  where
    true≢false : true ≡ false → ⊥
    true≢false e = ground (arith, e)

module _ (id : String) (d : Handlers) (u : Unique d) where
  deleted :
      (j : String) (h : PersistentHandler) → lookup j (delete id d) ≡ some h → str_eq id j ≡ false
  deleted j h found = ground (arith, eq_iff id j, found, lookup-delete_same id d u)

  not_there : lookup id d ≡ none → IsPopped id d d
  not_there e = record {
    pruned = same-IsPruned d u;
    gone = λ j h found t. ground (arith, eq_iff id j, e, found);
  }

  module _ (h : PersistentHandler) (there : lookup id d ≡ some h) where
    again : is_terminal_status h.status ≡ false → IsPopped id d d
    again t = record {
      pruned = same-IsPruned d u;
      gone = λ j h' found t'. apart d id j h h' there found t t';
    }

    finished : is_terminal_status h.status ≡ true → IsPopped id d (delete id d)
    finished t = record {
      pruned = record {
        unique = Unique-delete id d u;
        kept = λ j h' found. sym (lookup-delete_other id j d (deleted j h' found)) ∙ found;
        unfinished = λ j h' found t'.
            lookup-delete_other id j d
              (ground (arith, eq_iff id j, eq_iff j id, apart d j id h' h found there t' t))
            ∙ found;
      };
      gone = λ j h' found t'. deleted j h' found;
    }

popped-IsPopped :
    (id : String) (s : MemoryStore)
    → Unique s.handlers
    → IsPopped id s.handlers (evict_popped id s).handlers
unfolding evict_popped evict_run evict_run_state_stores
popped-IsPopped id s u = by_handler (lookup id s.handlers) refl
  where
    of_run :
        (run_id : Option String)
        → IsPopped id s.handlers (delete id s.handlers)
        → IsPopped id s.handlers
            (evict_run run_id (record s { handlers = delete id s.handlers })).handlers
    of_run none p = p
    of_run (some run_id) p = p

    by_handler :
        (o : Option PersistentHandler)
        → lookup id s.handlers ≡ o
        → IsPopped id s.handlers
            (elim o as (λ _. MemoryStore) [
              | none ↦ s
              | some handler ↦
                  if is_terminal_status handler.status
                  then evict_run handler.run_id (record s { handlers = delete id s.handlers })
                  else s
            ]).handlers
    by_handler none e = not_there id s.handlers u e
    by_handler (some h) e =
        if_case {A = MemoryStore} (λ s'. IsPopped id s.handlers s'.handlers)
          (is_terminal_status h.status) _ _ (λ t. of_run h.run_id (finished id s.handlers u h e t))
          (λ t. again id s.handlers u h e t)

popped-limit : (id : String) (s : MemoryStore) → (evict_popped id s).max_completed ≡ s.max_completed
unfolding evict_popped evict_run evict_run_state_stores
popped-limit id s =
    elim (lookup id s.handlers)
      as (λ o.
        (elim o as (λ _. MemoryStore) [
          | none ↦ s
          | some handler ↦
              if is_terminal_status handler.status
              then evict_run handler.run_id (record s { handlers = delete id s.handlers })
              else s
        ]).max_completed
        ≡ s.max_completed) [
          | none ↦ refl
          | some handler ↦
              if_case {A = MemoryStore} (λ s'. s'.max_completed ≡ s.max_completed)
                (is_terminal_status handler.status) _ _ (λ t. of_run handler.run_id) (λ t. refl)
        ]
  where
    of_run :
        (run_id : Option String)
        → (evict_run run_id (record s { handlers = delete id s.handlers })).max_completed
          ≡ s.max_completed
    of_run none = refl
    of_run (some run_id) = refl

-- Over the loop: what is left of the queue, which is within the limit, has the ids of the finished
-- handlers that are left; only finished handlers went, and none if the queue was within the limit.
pub record IsEvicted (cap : ℕ) (queue : List String) (s s' : MemoryStore) : Type 0 where
  pub pruned : IsPruned s.handlers s'.handlers
  pub queued : IsQueued s'.handlers s'.terminal_queue
  pub bounded : length s'.terminal_queue ≤ cap
  pub fitting : length queue ≤ cap → s'.handlers ≡ s.handlers
  pub limit : s'.max_completed ≡ s.max_completed

pub evict_over-IsEvicted :
    (cap : ℕ) (queue : List String) (s : MemoryStore)
    → Unique s.handlers
    → IsQueued s.handlers queue
    → IsEvicted cap queue s (evict_over cap queue s)
unfolding evict_over
evict_over-IsEvicted cap [] s u q = record {
  pruned = same-IsPruned s.handlers u;
  queued = q;
  bounded = omega arith;
  fitting = λ h. refl;
  limit = refl;
}
evict_over-IsEvicted cap (id ∷ queue) s u q =
    if_case (IsEvicted cap (id ∷ queue) s) (leb (suc (length queue)) cap) _ _
      (λ fits. record {
        pruned = same-IsPruned s.handlers u;
        queued = q;
        bounded = ground (arith, fits);
        fitting = λ h. refl;
        limit = refl;
      })
      (λ over.
        let p = popped-IsPopped id s u in
        let rest =
          evict_over-IsEvicted cap queue (evict_popped id s) p.pruned.unique (λ j h found t.
            ground (arith, p.gone j h found t, q j h (p.pruned.kept j h found) t)) in
        record {
          pruned = IsPruned-trans _ _ _ p.pruned rest.pruned;
          queued = rest.queued;
          bounded = rest.bounded;
          fitting = λ h. absurd (ground (arith, over, h));
          limit = rest.limit ∙ popped-limit id s;
        })
