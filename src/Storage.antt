-- ===== src/Storage.antt =====
-- internal/storage: records, the index, segments and the log of a partition.
pub mod Crc32c
pub mod Record
pub mod Search
pub mod Index
pub mod Config
pub mod Segment
pub mod Rebuild
pub mod Log
