-- ===== src/Framed.antt =====
-- Predicates of the whole state that every tick keeps: what a predicate has to allow, and that this
-- is enough for every handler of workflows/runtime/control_loop/reduce.py.
pub mod Interface
pub mod Arrivals
pub mod Adding
pub mod Completing
pub mod Ticks
pub mod Rest
