-- ===== src/Core.antt =====
-- src/core: the collector's own logic, apart from any runtime.
pub mod Heartbeat
pub mod Diagnostics
pub mod Health
pub mod Adapters
pub mod Sanitize
pub mod Causes
pub mod Normalize
pub mod SafeText
pub mod RuntimeMappings
pub mod ProhibitedText
pub mod Preview
