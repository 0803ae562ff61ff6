-- ===== src/EventSourcing.antt =====
-- event_sourcing_pattern: the events of a bank account, the write-side aggregate that produces and
-- folds them, the store, and the read model that the projector keeps.
pub mod Events
pub mod Aggregate
pub mod Store
pub mod Naive
pub mod Projector
mod Tests
