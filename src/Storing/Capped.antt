-- ===== src/Storing/Capped.antt =====
-- The cap on finished handlers: `update` of
-- packages/llama-agents-server/src/llama_agents/server/_store/memory_workflow_store.py.
use llama_agents.Prelude.{
  ℕ, suc, ◌≤◌, ◌≡◌, refl, sym, ap, ◌∙◌, inl, inr, String, false, ◌||◌, Option, none, some,
  some-injective, List, [], ◌∷◌, ◌++◌, length, length-append, str_eq, member, arith, Bool-cases,
  if◌then◌else◌, if_case, lookup, assign, lookup-assign, Unique,
}
use llama_agents.Storing.Handlers.{is_terminal_status, PersistentHandler}
use llama_agents.Storing.Memory.{MemoryStore, evict_over, evict_oldest_completed, update}
use llama_agents.Storing.Unique.{Unique-assign}
use llama_agents.Storing.Evicting.{IsQueued, IsPruned, same-IsPruned, evict_over-IsEvicted}

member-append :
    (xs ys : List String) (s : String) → member (xs ++ ys) s ≡ (member xs s || member ys s)
member-append [] ys s = refl
member-append (x ∷ xs) ys s = ground (arith, member-append xs ys s)

-- The queue has the ids of the finished handlers, and is within the limit.
pub record IsCapped (s : MemoryStore) : Type 0 where
  pub unique : Unique s.handlers
  pub queued : IsQueued s.handlers s.terminal_queue
  pub bounded : (cap : ℕ) → s.max_completed ≡ some cap → length s.terminal_queue ≤ cap

pub record IsUpdated (handler : PersistentHandler) (s s' : MemoryStore) : Type 0 where
  pub capped : IsCapped s'
  pub pruned : IsPruned (assign handler.handler_id handler s.handlers) s'.handlers
  pub fitting :
      (cap : ℕ)
      → s.max_completed ≡ some cap
      → suc (length s.terminal_queue) ≤ cap
      → s'.handlers ≡ assign handler.handler_id handler s.handlers

module _ (handler : PersistentHandler) (s : MemoryStore) (c : IsCapped s) where
  stored-Unique : Unique (assign handler.handler_id handler s.handlers)
  stored-Unique = Unique-assign handler.handler_id handler s.handlers c.unique

  found_in :
      (id : String) (h : PersistentHandler)
      → lookup id (assign handler.handler_id handler s.handlers) ≡ some h
      → (if str_eq handler.handler_id id then some handler else lookup id s.handlers) ≡ some h
  found_in id h found = sym (lookup-assign handler.handler_id id handler s.handlers) ∙ found

  unfinished-IsQueued :
      is_terminal_status handler.status ≡ false
      → IsQueued (assign handler.handler_id handler s.handlers) s.terminal_queue
  unfinished-IsQueued t id h found t' = elim (Bool-cases (str_eq handler.handler_id id)) [
    | inl same ↦
        let one = some-injective handler h (rw same at (found_in id h found)) in
        absurd (ground (arith, t, sym (ap (λ x. is_terminal_status x.status) one) ∙ t, t'))
    | inr other ↦ c.queued id h (rw other at (found_in id h found)) t'
  ]

  finished-IsQueued :
      IsQueued
        (assign handler.handler_id handler s.handlers)
        (s.terminal_queue ++ handler.handler_id ∷ [])
  finished-IsQueued id h found t = elim (Bool-cases (str_eq handler.handler_id id)) [
    | inl same ↦ member-append s.terminal_queue (handler.handler_id ∷ []) id ∙ ground (arith, same)
    | inr other ↦
        member-append s.terminal_queue (handler.handler_id ∷ []) id
        ∙ ground (arith, c.queued id h (rw other at (found_in id h found)) t)
  ]

  finished-IsUpdated :
      (o : Option ℕ)
      → s.max_completed ≡ o
      → IsUpdated handler s (elim o [
        | none ↦ record s {
          handlers = assign handler.handler_id handler s.handlers;
          terminal_queue = s.terminal_queue ++ handler.handler_id ∷ [];
        }
        | some cap ↦ evict_over cap (s.terminal_queue ++ handler.handler_id ∷ []) (record s {
          handlers = assign handler.handler_id handler s.handlers;
          terminal_queue = s.terminal_queue ++ handler.handler_id ∷ [];
        })
      ])
  finished-IsUpdated none e = record {
    capped = record {
      unique = stored-Unique;
      queued = finished-IsQueued;
      bounded = λ cap e'. absurd (ground (arith, e, e'));
    };
    pruned = same-IsPruned _ stored-Unique;
    fitting = λ cap e' h. refl;
  }
  finished-IsUpdated (some cap) e =
      let v =
        evict_over-IsEvicted cap (s.terminal_queue ++ handler.handler_id ∷ [])
          (record s {
            handlers = assign handler.handler_id handler s.handlers;
            terminal_queue = s.terminal_queue ++ handler.handler_id ∷ [];
          })
          stored-Unique finished-IsQueued in
      record {
        capped = record {
          unique = v.pruned.unique;
          queued = v.queued;
          bounded = λ cap' e'.
              omega (arith, v.bounded, some-injective cap cap' (sym e ∙ sym v.limit ∙ e'));
        };
        pruned = v.pruned;
        fitting = λ cap' e' h. v.fitting (
            omega (
              arith,
              h,
              some-injective cap cap' (sym e ∙ e'),
              length-append s.terminal_queue (handler.handler_id ∷ []),
            ));
      }

  -- From a capped store, an update leaves a capped store. It stores the handler; after that no
  -- unfinished handler is lost or changed, nor is a finished one changed, and none is lost if the
  -- queue with the handler's id is within the limit.
  pub update-IsUpdated : IsUpdated handler s (update handler s)
  unfolding update evict_oldest_completed
  update-IsUpdated =
      if_case (IsUpdated handler s) (is_terminal_status handler.status) _ _
        (λ t. finished-IsUpdated s.max_completed refl)
        (λ t. record {
          capped = record {
            unique = stored-Unique;
            queued = unfinished-IsQueued t;
            bounded = c.bounded;
          };
          pruned = same-IsPruned _ stored-Unique;
          fitting = λ cap e h. refl;
        })
