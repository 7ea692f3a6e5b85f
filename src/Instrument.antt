-- ===== src/Instrument.antt =====
-- internal/instrumenter/options.go: the configuration of the instrumenter.
pub mod Options
pub mod Directives
pub mod Gate
