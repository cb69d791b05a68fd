-- ===== src/Engine.antt =====
-- The package `engine`: validation of arguments, the calls of the native library, and the engine's
-- life cycle.
pub mod Validation
pub mod Library
pub mod Loading
pub mod ArrowReader
pub mod Binding
pub mod Action
pub mod Replay
pub mod Client
