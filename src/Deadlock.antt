-- ===== src/Deadlock.antt =====
-- internal/traceproc/traceproc.go: the warnings on goroutines that stay blocked, `warn_quiescence` and
-- `warn_deadlock_cycle`.
pub mod Graph
pub mod Search
pub mod Walks
mod Correct
mod Acyclic
pub mod Fuel
pub mod Quiet
pub mod Cycles
