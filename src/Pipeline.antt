-- ===== src/Pipeline.antt =====
-- src/pipeline/outbox.rs: the delivery of outbox rows.
pub mod Attempt
pub mod Alerts
pub mod Delivery
pub mod Digest
pub mod Group
pub mod Flush
