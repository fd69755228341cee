-- ===== src/Protocol/Requests.antt =====
-- internal/protocol/requests.go: the request bodies, a module for each API.
pub mod Produce
pub mod Fetch
pub mod Metadata
pub mod CreateTopics
pub mod JoinGroup
pub mod SyncGroup
pub mod Heartbeat
pub mod LeaveGroup
pub mod OffsetCommit
pub mod OffsetFetch
pub mod ListOffsets
