-- ===== src/Coordinator.antt =====
-- internal/coordinator: the assignment of partitions, and the groups of consumers.
pub mod Assignor
pub mod Group
pub mod Groups
pub mod Offsets
