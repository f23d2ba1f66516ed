-- ===== src/Storing.antt =====
-- The memory store of the workflow server:
-- packages/llama-agents-server/src/llama_agents/server/_store/memory_workflow_store.py over
-- abstract_workflow_store.py.
pub mod Handlers
pub mod Memory
pub mod Reading
pub mod Unique
pub mod Evicting
pub mod Capped
pub mod Subscribed
pub mod Appended
