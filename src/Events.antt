-- ===== src/Events.antt =====
-- core/events/: the event bus.
pub mod Bus
mod Examples
