-- ===== src/Lib.antt =====
-- GTV records the execution trace of a Go program and shows it as a timeline of the operations of
-- its goroutines. This library models the trace processor, internal/traceproc: the parser that turns
-- trace events into timeline events, and the passes over the finished timeline; and beside it the
-- capture of a trace and the options of the instrumenter.
--
-- The parts, and where they are:
-- - Prelude: the shared helpers. Text models the calls of the Go packages strings and strconv, on
--   ASCII text; Dict is an association list that stands for a map; Int is the type int64 without
--   wrap-around.
-- - Timeline: internal/traceproc/traceproc.go, the type TimelineEvent (Event), the tests of an
--   event's kind and AnnotateUnknownEndpoints (Kinds), FilterTimelineEventForMode and the parsing of
--   the modes (Filter).
-- - Topology: internal/traceproc/topology.go, with the identity of a channel that the other passes
--   use.
-- - Dedup: internal/traceproc/dedup.go.
-- - Unmatched: internal/traceproc/audit_unmatched.go.
-- - Parse: the parser in internal/traceproc/traceproc.go. State has ParseState, with its fields in
--   groups; Machine has the effects of a handler. Region is parseRegionOp; Keys, Activity, Fresh,
--   Helpers and SyncWait are small operations of the state; Goroutines and Finalize are the
--   lifecycle of a goroutine; Queues and Pairing are handleRegionOp with the queues it searches;
--   Select is emitSelectChosenCase with matchSelectRecv; Begin is handleRegionBegin and Commit
--   handleRegionEnd; Inference is inferBlockChannel, ChanOp handleChanOp, and Blocking is what
--   ProcessEvent does with a goroutine that waits or is runnable again. Step is ProcessEvent on
--   regions and transitions, Starts its part on new goroutines, ChannelLogs its log messages on
--   channels and spawns. BlockTime is the facts on the time of a block; Messages counts where a
--   message id is.
-- - Deadlock: the warnings on blocked goroutines in internal/traceproc/traceproc.go. Graph is the graph
--   of waits, Search the depth-first search and the events; Walks, Correct, Acyclic and Fuel are the
--   facts on the search, Cycles and Quiet those on the events.
-- - Audit: auditSummaryEvent and EmitAuditSummary in internal/traceproc/traceproc.go. Channels counts
--   what the queues hold, Blocked the time that goroutines are blocked, Summary is the whole; Cycle
--   and Report are the facts on it.
-- - Normalize: NormalizeTimeline in internal/traceproc/traceproc.go. Fields is its loop over the
--   events, Summary the order and the one summary, Entities the tables and the capabilities, and
--   Envelope the whole.
-- - Capture: internal/gtvtrace/trace.go (Tracer) and gtv/trace.go (Library).
-- - Instrument: internal/instrumenter/options.go, the options and their sources (Options) and the
--   configuration file, the filters and the directives (Directives).
-- - Tests: the theorems at concrete timelines and runs.
--
-- How the code is modelled:
-- - A handler of the parser is a function from a machine, which is the parse state and the events
--   emitted so far, to a machine and an outcome; the outcome `failed` is the early return with the
--   callback's error, and `attempt` is a call whose error is dropped.
-- - Code that is not the repository's is a parameter: the callback that receives the events, by the
--   record Callback with the events it refuses and what its wrappers do to an event, and the order
--   in which a range visits the keys of a map. The set of channels whose pairing is skipped comes
--   from the environment and is a parameter too. Theorems about message ids assume that the wrappers
--   keep the name and the message id of an event (KeepsIds).
-- - A time in milliseconds is a multiple of a nanosecond, and is kept as a number of those. The drop
--   rate is a quotient of two counters. Counters do not overflow: a trace has fewer events than an
--   int64 counts.
-- - A formatted error or warning is kept as the arguments of its format.
-- - Loops over slices and maps are structural recursion. The depth-first search of Deadlock runs on
--   fuel, one more than the goroutines with an edge: each call but the last of a path marks one of
--   them.
-- - sort.Slice and sort.SliceStable are insertion sorts that keep the order of equal elements.
-- - Of the calls outside the program, those of the runtime tracer, files and hooks are a list of
--   actions in the state of Capture; the runtime decides which of them fail.
--
-- Not modelled: the other messages of the log in ProcessEvent and its dispatch over them, with those
-- of a select, which are to come; the rewriting of syntax trees
-- (internal/instrumenter/instrumenter.go), which is the work of go/ast; the signal handlers and
-- timers of the capture, the live server and the tools (cmd), which are processes, files and
-- connections; the workloads, which are programs to trace; and the web pages.
pub mod Prelude
pub mod Timeline
pub mod Topology
pub mod Dedup
pub mod Unmatched
pub mod Parse
pub mod Deadlock
pub mod Normalize
pub mod Instrument
pub mod Audit
pub mod Capture
pub mod Tests
