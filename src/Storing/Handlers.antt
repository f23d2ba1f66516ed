-- ===== src/Storing/Handlers.antt =====
-- Handlers and what selects them: packages/llama-agents-server/src/llama_agents/server/_store/
-- abstract_workflow_store.py, and `_matches_query` of memory_workflow_store.py.
use llama_agents.Prelude.{
  ℤ, String, Bool, true, false, not, ◌&&◌, Option, none, some, List, any, member, is_some,
}
use llama_agents.Types.{Event}

pub data Status : Type 0 where
  running : Status
  completed : Status
  failed : Status
  cancelled : Status

unfoldable pub is_terminal_status : Status → Bool
is_terminal_status Status.running = false
is_terminal_status _ = true

unfoldable pub same_status : Status → Status → Bool
same_status Status.running Status.running = true
same_status Status.completed Status.completed = true
same_status Status.failed Status.failed = true
same_status Status.cancelled Status.cancelled = true
same_status _ _ = false

pub record PersistentHandler : Type 0 where
  pub handler_id : String
  pub workflow_name : String
  pub status : Status
  pub run_id : Option String
  pub error : Option String
  pub result : Option Event
  pub started_at : Option ℤ
  pub updated_at : Option ℤ
  pub completed_at : Option ℤ
  pub idle_since : Option ℤ

-- A field that is `None` selects every handler.
pub record HandlerQuery : Type 0 where
  pub handler_id_in : Option (List String)
  pub run_id_in : Option (List String)
  pub workflow_name_in : Option (List String)
  pub status_in : Option (List Status)
  pub is_idle : Option Bool

-- `value in names`, where an empty list holds nothing.
unfoldable pub is_named : Option (List String) → Option String → Bool
is_named none value = true
is_named (some names) none = false
is_named (some names) (some value) = member names value

unfoldable pub has_status : Option (List Status) → Status → Bool
unfolding same_status
has_status none status = true
has_status (some allowed) status = any (λ s. same_status s status) allowed

unfoldable pub has_idleness : Option Bool → Bool → Bool
has_idleness none idle = true
has_idleness (some true) idle = idle
has_idleness (some false) idle = not idle

unfoldable pub matches_query : PersistentHandler → HandlerQuery → Bool
unfolding is_named has_status has_idleness
matches_query handler query =
    is_named query.handler_id_in (some handler.handler_id)
    && is_named query.run_id_in handler.run_id
    && is_named query.workflow_name_in (some handler.workflow_name)
    && has_status query.status_in handler.status
    && has_idleness query.is_idle (is_some handler.idle_since)
