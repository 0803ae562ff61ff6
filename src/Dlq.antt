-- ===== src/Dlq.antt =====
-- dlq_pattern: payments, the two-stream broker, and the idempotent consumer with a retry budget.
pub mod Models
pub mod Broker
pub mod Consumer
pub mod Naive
mod Tests
