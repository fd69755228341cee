-- ===== src/Protocol/Responses.antt =====
-- internal/protocol/responses.go: the response bodies, a module for each API.
pub mod Produce
pub mod Fetch
pub mod ApiVersions
pub mod Metadata
pub mod CreateTopics
pub mod JoinGroup
pub mod SyncGroup
pub mod Heartbeat
pub mod LeaveGroup
pub mod OffsetCommit
pub mod OffsetFetch
pub mod ListOffsets
