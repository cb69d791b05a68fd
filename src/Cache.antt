-- ===== src/Cache.antt =====
-- The package `cache`: configuration, publication on the file system, the builder and the store.
pub mod Publication
pub mod Config
pub mod Aliases
pub mod Batch
pub mod Scan
pub mod Consolidate
pub mod Manifest
pub mod Partition
pub mod Validate
pub mod Builder
pub mod Preflight
pub mod Request
pub mod Store
pub mod Agreement
