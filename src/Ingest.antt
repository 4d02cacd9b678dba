-- ===== src/Ingest.antt =====
-- internal/ingest: routing and the write path.
pub mod Router
pub mod Convert
pub mod Orchestrator
pub mod Server
pub mod CatchUp
