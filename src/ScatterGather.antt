-- ===== src/ScatterGather.antt =====
-- scatter_gather_pattern: an in-process topic broker, the coordinator that scatters a search and
-- gathers the quotes, and the rules that combine them.
pub mod Models
pub mod Broker
pub mod Aggregator
pub mod Service
pub mod Combining
pub mod Naive
mod Tests
