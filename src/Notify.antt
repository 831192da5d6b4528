-- ===== src/Notify.antt =====
-- src/notify: the event, team routing, the fan-out over sinks with their breakers.
pub mod Event
pub mod Routing
pub mod Composite
pub mod Fanout
