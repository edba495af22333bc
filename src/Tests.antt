-- ===== src/Tests.antt =====
-- Runs on concrete inputs: each main theorem at an input where its hypotheses hold.
mod Spool
mod Uploader
mod Update
mod Core
mod Release
mod Schedules
mod HotUpdate
mod Diagnostics
mod Adapters
mod OpenClaw
mod Normalization
mod Questions
