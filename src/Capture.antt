-- ===== src/Capture.antt =====
-- internal/gtvtrace/trace.go and gtv/trace.go: starting, stopping and flushing a runtime trace. The
-- run is sequential: the mutex and the atomic fields are the fields of the state.
pub mod Tracer
pub mod Library
pub mod Once
