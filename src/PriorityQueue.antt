-- ===== src/PriorityQueue.antt =====
-- priority_queue_pattern: one stream for each priority, and the two consumer loops.
pub mod Models
pub mod Broker
pub mod Consumer
pub mod Naive
mod Tests
