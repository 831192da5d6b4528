-- ===== src/Config.antt =====
-- src/config: the desired state and what the program makes of it.
pub mod Presets
pub mod Source
pub mod Watches
pub mod Organizations
pub mod Diff
pub mod Redact
pub mod Routing
