-- ===== src/Invariant.antt =====
-- Invariants of one worker, carried through the parts of the reducer that only dispatch.
pub mod Local
pub mod Streaming
pub mod Arriving
pub mod Adding
