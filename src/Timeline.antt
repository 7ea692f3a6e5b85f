-- ===== src/Timeline.antt =====
-- internal/traceproc/traceproc.go: the event of a timeline, the sorts of events, and the modes that
-- filter them.
mod Event
pub mod Kinds
mod Filter
pub mod Mode
pub use Event.*
unfoldable pub use Filter.*
