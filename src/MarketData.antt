-- ===== src/MarketData.antt =====
-- The package `market_data`: normalisation of depth, and timestamp ordering.
pub mod Normalize
pub mod Ordering
pub mod Schema
pub mod Audit
