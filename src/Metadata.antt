-- ===== src/Metadata.antt =====
-- internal/metadata: the cluster metadata that the coordinators agree on.
pub mod State
pub mod Fsm
pub mod Assignment
pub mod Keyed
pub mod Server
pub mod Liveness
pub mod Snapshot
