-- ===== src/Broker.antt =====
-- internal/broker: the broker, its topics, the handlers and the replication.
pub mod Murmur
pub mod Partition
pub mod Topic
pub mod Metadata
pub mod State
pub mod Replicas
pub mod Codes
pub mod Listeners
pub mod Topics
pub mod Produce
pub mod Fetch
pub mod Follower
pub mod Handlers
pub mod New
