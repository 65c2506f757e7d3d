-- ===== src/EventStore.antt =====
-- src/event_store: the event store over a storage backend.
pub mod Indices
pub mod Read
pub mod Append
pub mod Log
pub mod Contract
