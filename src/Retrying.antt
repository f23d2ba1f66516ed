-- ===== src/Retrying.antt =====
-- Retry policies: workflows/retry_policy.py. What the standard library supplies (exceptions, regular
-- expressions, random numbers) is an argument. Times are integers in the fixed unit of the model,
-- and an infinite maximum is `none`.
pub mod Conditions
pub mod Waits
pub mod Stops
pub mod Policy
pub mod Delays
pub mod Within
pub mod Seeds
pub mod Attempts
pub mod Bounded
pub mod Chains
