-- ===== src/Capacity.antt =====
-- No step runs more executions than it has workers, and no two on one worker: the invariant of the
-- worker slots, and that every tick keeps it.
pub mod Slots
pub mod Dispatching
pub mod Finishing
pub mod Completing
pub mod Timing
pub mod Ticks
