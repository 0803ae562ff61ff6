-- ===== src/CompetingConsumers.antt =====
-- competing_consumers_pattern: several consumers of one group share a stream.
pub mod Models
pub mod Broker
pub mod Consumer
pub mod Naive
mod Tests
