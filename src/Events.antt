-- ===== src/Events.antt =====
-- The event store of event-sourcing-store/event_store.py.
pub mod Store
pub mod Projection
pub mod Indexed
pub mod Restart
pub mod Replayed
pub mod Views
mod Tests
