-- ===== src/Engine.antt =====
-- src/engine: the seam types, the ingest policy and the receive engine.
pub mod Types
pub mod Policy
pub mod World
pub mod Writes
pub mod Handlers
pub mod Retry
pub mod Serial
pub mod Cutover
pub mod Start
pub mod Steady
pub mod Ensures
pub mod Session
pub mod Watermark
