-- ===== src/Parse.antt =====
-- internal/traceproc/traceproc.go: from trace events to timeline events.
pub mod Region
pub mod State
pub mod Machine
pub mod Keys
pub mod Activity
pub mod Queues
pub mod Pairing
pub mod Select
pub mod Waiting
pub mod Fresh
pub mod Helpers
pub mod Goroutines
pub mod SyncWait
pub mod Commit
pub mod Finalize
pub mod Messages
pub mod Inference
pub mod Begin
pub mod ChanOp
pub mod Blocking
pub mod BlockTime
pub mod Starts
pub mod Step
pub mod ChannelLogs
