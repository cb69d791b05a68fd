-- ===== src/Cache/Agreement.antt =====
-- cache/builder.py with cache/store.py: the store accepts the sources that the builder has written.
pub mod Follows
pub mod Extends
pub mod Writes
pub mod Symbols
pub mod Sources
pub mod Stored
pub mod Manifest
pub mod Date
