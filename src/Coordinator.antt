-- ===== src/Coordinator.antt =====
-- internal/coordinator: fanning a query out to the storage nodes.
pub mod Merge
pub mod Cache
pub mod FanOut
pub mod NodeClient
