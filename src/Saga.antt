-- ===== src/Saga.antt =====
-- saga_pattern: the choreography of an order over three services and three streams.
pub mod Events
pub mod Services
pub mod Runner
pub mod Naive
mod Tests
