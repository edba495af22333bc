-- ===== src/Schedules.antt =====
-- src/schedules.
pub mod Runner
pub mod RunnerState
pub mod Run
