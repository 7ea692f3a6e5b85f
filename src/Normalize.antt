-- ===== src/Normalize.antt =====
-- internal/traceproc/traceproc.go: `NormalizeTimeline` and what it calls, from the events of a run to
-- the envelope that the visualizers read.
pub mod Fields
pub mod Summary
pub mod Entities
pub mod Envelope
pub mod Order
pub mod Shape
pub mod Identity
pub mod Codes
pub mod Entry
pub mod Roster
