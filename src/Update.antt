-- ===== src/Update.antt =====
-- src/update: which release is newer, and which update directive is followed.
pub mod Version
pub mod Directive
pub mod Scheduler
pub mod Convergence
pub mod HotUpdate
