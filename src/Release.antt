-- ===== src/Release.antt =====
-- src/release.
pub mod Rollout
pub mod RolloutState
pub mod Observation
