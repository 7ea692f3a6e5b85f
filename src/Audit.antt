-- ===== src/Audit.antt =====
-- internal/traceproc/traceproc.go: the audit at the end of a run, `auditSummaryEvent` and
-- `EmitAuditSummary`.
pub mod Channels
pub mod Blocked
pub mod Summary
pub mod Cycle
pub mod Report
