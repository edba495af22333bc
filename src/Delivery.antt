-- ===== src/Delivery.antt =====
-- src/delivery: the durable spool and the components that empty it.
pub mod Spool
pub mod Uploader
pub mod Pump
pub mod Diagnostics
