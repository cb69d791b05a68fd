-- ===== src/Cli.antt =====
-- The package `cli`: what the commands ask of the store.
pub mod BuildCache
pub mod BenchmarkRead
