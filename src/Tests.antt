-- ===== src/Tests.antt =====
-- Concrete inputs: numbers for the floats, a native library, partitions, and the theorems at them.
mod Numbers
mod AssetConfig
mod MarketData
mod Engine
mod Cache
mod Scan
mod Store
mod Loading
mod Cli
mod Audit
mod Agreement
mod Commands
mod Surface
