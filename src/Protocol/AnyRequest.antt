-- ===== src/Protocol/AnyRequest.antt =====
-- internal/protocol/requests.go with the API keys of internal/broker/broker.go: the request bodies
-- of all the APIs together.
use mini_kafka.Protocol.Stream.{Reader, Writer, pure, ◌>>=◌}
use mini_kafka.Protocol.Trips.{Trips, Trips-last}
use mini_kafka.Protocol.Api.{Api}
use mini_kafka.Protocol.Requests.Produce
use mini_kafka.Protocol.Requests.Fetch
use mini_kafka.Protocol.Requests.Metadata
use mini_kafka.Protocol.Requests.CreateTopics
use mini_kafka.Protocol.Requests.JoinGroup
use mini_kafka.Protocol.Requests.SyncGroup
use mini_kafka.Protocol.Requests.Heartbeat
use mini_kafka.Protocol.Requests.LeaveGroup
use mini_kafka.Protocol.Requests.OffsetCommit
use mini_kafka.Protocol.Requests.OffsetFetch
use mini_kafka.Protocol.Requests.ListOffsets

-- A request body of any API.
pub data Request : Type 0 where
  produce : Produce.ProduceRequest → Request
  fetch : Fetch.FetchRequest → Request
  metadata : Metadata.MetadataRequest → Request
  create_topics : CreateTopics.CreateTopicsRequest → Request
  join_group : JoinGroup.JoinGroupRequest → Request
  sync_group : SyncGroup.SyncGroupRequest → Request
  heartbeat : Heartbeat.HeartbeatRequest → Request
  leave_group : LeaveGroup.LeaveGroupRequest → Request
  offset_commit : OffsetCommit.OffsetCommitRequest → Request
  offset_fetch : OffsetFetch.OffsetFetchRequest → Request
  list_offsets : ListOffsets.ListOffsetsRequest → Request

abbrev pub api_of : Request → Api
api_of (produce r) = Api.produce
api_of (fetch r) = Api.fetch
api_of (metadata r) = Api.metadata
api_of (create_topics r) = Api.create_topics
api_of (join_group r) = Api.join_group
api_of (sync_group r) = Api.sync_group
api_of (heartbeat r) = Api.heartbeat
api_of (leave_group r) = Api.leave_group
api_of (offset_commit r) = Api.offset_commit
api_of (offset_fetch r) = Api.offset_fetch
api_of (list_offsets r) = Api.list_offsets

-- The method Encode of the body that it is.
pub encode_request : Request → Writer
encode_request (produce r) = Produce.encode r
encode_request (fetch r) = Fetch.encode r
encode_request (metadata r) = Metadata.encode r
encode_request (create_topics r) = CreateTopics.encode r
encode_request (join_group r) = JoinGroup.encode r
encode_request (sync_group r) = SyncGroup.encode r
encode_request (heartbeat r) = Heartbeat.encode r
encode_request (leave_group r) = LeaveGroup.encode r
encode_request (offset_commit r) = OffsetCommit.encode r
encode_request (offset_fetch r) = OffsetFetch.encode r
encode_request (list_offsets r) = ListOffsets.encode r

-- The method Decode that the code calls for an API.
pub decode_request : Api → Reader Request
decode_request Api.produce = Produce.decode >>= λ r. pure (Request.produce r)
decode_request Api.fetch = Fetch.decode >>= λ r. pure (Request.fetch r)
decode_request Api.metadata = Metadata.decode >>= λ r. pure (Request.metadata r)
decode_request Api.create_topics = CreateTopics.decode >>= λ r. pure (Request.create_topics r)
decode_request Api.join_group = JoinGroup.decode >>= λ r. pure (Request.join_group r)
decode_request Api.sync_group = SyncGroup.decode >>= λ r. pure (Request.sync_group r)
decode_request Api.heartbeat = Heartbeat.decode >>= λ r. pure (Request.heartbeat r)
decode_request Api.leave_group = LeaveGroup.decode >>= λ r. pure (Request.leave_group r)
decode_request Api.offset_commit = OffsetCommit.decode >>= λ r. pure (Request.offset_commit r)
decode_request Api.offset_fetch = OffsetFetch.decode >>= λ r. pure (Request.offset_fetch r)
decode_request Api.list_offsets = ListOffsets.decode >>= λ r. pure (Request.list_offsets r)

-- The fields fit their wire types and the sizes stay within the limits that the reader sets.
unfoldable pub IsWireBody : Request → Type 0
IsWireBody (produce r) = Produce.IsWire r
IsWireBody (fetch r) = Fetch.IsWire r
IsWireBody (metadata r) = Metadata.IsWire r
IsWireBody (create_topics r) = CreateTopics.IsWire r
IsWireBody (join_group r) = JoinGroup.IsWire r
IsWireBody (sync_group r) = SyncGroup.IsWire r
IsWireBody (heartbeat r) = Heartbeat.IsWire r
IsWireBody (leave_group r) = LeaveGroup.IsWire r
IsWireBody (offset_commit r) = OffsetCommit.IsWire r
IsWireBody (offset_fetch r) = OffsetFetch.IsWire r
IsWireBody (list_offsets r) = ListOffsets.IsWire r

-- For each of the eleven APIs with a request body, a body whose fields fit the wire types and whose
-- sizes keep to the limits of the reader is written without an error, and the decoder of its API
-- reads it back, taking exactly the bytes that were written, whatever stands before them in the
-- writer and behind them in the reader.
pub encode_request-Trips :
    (r : Request) → IsWireBody r → Trips (encode_request r) (decode_request (api_of r)) r
unfolding encode_request decode_request IsWireBody
encode_request-Trips (produce r) h = Trips-last Request.produce r (Produce.encode-Trips r h)
encode_request-Trips (fetch r) h = Trips-last Request.fetch r (Fetch.encode-Trips r h)
encode_request-Trips (metadata r) h = Trips-last Request.metadata r (Metadata.encode-Trips r h)
encode_request-Trips (create_topics r) h =
    Trips-last Request.create_topics r (CreateTopics.encode-Trips r h)
encode_request-Trips (join_group r) h = Trips-last Request.join_group r (JoinGroup.encode-Trips r h)
encode_request-Trips (sync_group r) h = Trips-last Request.sync_group r (SyncGroup.encode-Trips r h)
encode_request-Trips (heartbeat r) h = Trips-last Request.heartbeat r (Heartbeat.encode-Trips r h)
encode_request-Trips (leave_group r) h =
    Trips-last Request.leave_group r (LeaveGroup.encode-Trips r h)
encode_request-Trips (offset_commit r) h =
    Trips-last Request.offset_commit r (OffsetCommit.encode-Trips r h)
encode_request-Trips (offset_fetch r) h =
    Trips-last Request.offset_fetch r (OffsetFetch.encode-Trips r h)
encode_request-Trips (list_offsets r) h =
    Trips-last Request.list_offsets r (ListOffsets.encode-Trips r h)
