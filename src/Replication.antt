-- ===== src/Replication.antt =====
-- internal/replication: the in-sync replicas, leader epochs and the waiting room of acks=all.
pub mod Isr
pub mod Epoch
pub mod Purgatory
pub mod Wire
