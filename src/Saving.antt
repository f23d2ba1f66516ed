-- ===== src/Saving.antt =====
-- Persisted state: `BrokerState.to_serialized` and `from_serialized` of
-- workflows/runtime/types/internal_state.py, over the records of
-- workflows/context/context_types.py.
pub mod Serialized
pub mod Writing
pub mod Reading
pub mod RoundTrip
pub mod Restored
pub mod Returning
pub mod Twice
