-- ===== src/Looping.antt =====
-- The control loop's runner: workflows/runtime/control_loop/runner.py. Tasks of asyncio are what
-- their completion hands to the loop; the adapter's clock is a function of the number of readings.
pub mod Wakeups
pub mod Runner
pub mod Commands
pub mod Workers
pub mod Turns
pub mod Rehydrate
pub mod Live
pub mod Waiting
pub mod Stamping
pub mod IdleChecks
pub mod Orderly
pub mod Journal
pub mod Exits
pub mod Counting
pub mod Rounds
pub mod Emptying
