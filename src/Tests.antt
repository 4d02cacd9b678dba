-- ===== src/Tests.antt =====
-- The theorems of the library at concrete inputs.
pub mod Toy
pub mod Stored
pub mod Indexed
pub mod Queried
pub mod Clustered
pub mod Coordinated
pub mod Retained
pub mod Ingested
pub mod Served
pub mod Clusters
pub mod Written
pub mod Restored
