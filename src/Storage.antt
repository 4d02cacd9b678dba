-- ===== src/Storage.antt =====
-- internal/storage: records, segment files, the segment manager and compaction.
pub mod Record
pub mod Disk
pub mod Bloom
pub mod Segment
pub mod Read
pub mod Manager
pub mod Compaction
