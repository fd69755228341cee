-- ===== src/Protocol/AnyResponse.antt =====
-- internal/protocol/responses.go with the API keys of internal/broker/broker.go: the response
-- bodies of all the APIs together.
use mini_kafka.Protocol.Stream.{Reader, Writer, pure, ◌>>=◌}
use mini_kafka.Protocol.Trips.{Trips, Trips-last}
use mini_kafka.Protocol.Api.{Api}
use mini_kafka.Protocol.Responses.Produce
use mini_kafka.Protocol.Responses.Fetch
use mini_kafka.Protocol.Responses.Metadata
use mini_kafka.Protocol.Responses.CreateTopics
use mini_kafka.Protocol.Responses.JoinGroup
use mini_kafka.Protocol.Responses.SyncGroup
use mini_kafka.Protocol.Responses.Heartbeat
use mini_kafka.Protocol.Responses.LeaveGroup
use mini_kafka.Protocol.Responses.OffsetCommit
use mini_kafka.Protocol.Responses.OffsetFetch
use mini_kafka.Protocol.Responses.ListOffsets

-- A response body of any API.
pub data Response : Type 0 where
  produce : Produce.ProduceResponse → Response
  fetch : Fetch.FetchResponse → Response
  metadata : Metadata.MetadataResponse → Response
  create_topics : CreateTopics.CreateTopicsResponse → Response
  join_group : JoinGroup.JoinGroupResponse → Response
  sync_group : SyncGroup.SyncGroupResponse → Response
  heartbeat : Heartbeat.HeartbeatResponse → Response
  leave_group : LeaveGroup.LeaveGroupResponse → Response
  offset_commit : OffsetCommit.OffsetCommitResponse → Response
  offset_fetch : OffsetFetch.OffsetFetchResponse → Response
  list_offsets : ListOffsets.ListOffsetsResponse → Response

abbrev pub api_of : Response → Api
api_of (produce r) = Api.produce
api_of (fetch r) = Api.fetch
api_of (metadata r) = Api.metadata
api_of (create_topics r) = Api.create_topics
api_of (join_group r) = Api.join_group
api_of (sync_group r) = Api.sync_group
api_of (heartbeat r) = Api.heartbeat
api_of (leave_group r) = Api.leave_group
api_of (offset_commit r) = Api.offset_commit
api_of (offset_fetch r) = Api.offset_fetch
api_of (list_offsets r) = Api.list_offsets

-- The method Encode of the body that it is.
pub encode_response : Response → Writer
encode_response (produce r) = Produce.encode r
encode_response (fetch r) = Fetch.encode r
encode_response (metadata r) = Metadata.encode r
encode_response (create_topics r) = CreateTopics.encode r
encode_response (join_group r) = JoinGroup.encode r
encode_response (sync_group r) = SyncGroup.encode r
encode_response (heartbeat r) = Heartbeat.encode r
encode_response (leave_group r) = LeaveGroup.encode r
encode_response (offset_commit r) = OffsetCommit.encode r
encode_response (offset_fetch r) = OffsetFetch.encode r
encode_response (list_offsets r) = ListOffsets.encode r

-- The method Decode that the code calls for an API.
pub decode_response : Api → Reader Response
decode_response Api.produce = Produce.decode >>= λ r. pure (Response.produce r)
decode_response Api.fetch = Fetch.decode >>= λ r. pure (Response.fetch r)
decode_response Api.metadata = Metadata.decode >>= λ r. pure (Response.metadata r)
decode_response Api.create_topics = CreateTopics.decode >>= λ r. pure (Response.create_topics r)
decode_response Api.join_group = JoinGroup.decode >>= λ r. pure (Response.join_group r)
decode_response Api.sync_group = SyncGroup.decode >>= λ r. pure (Response.sync_group r)
decode_response Api.heartbeat = Heartbeat.decode >>= λ r. pure (Response.heartbeat r)
decode_response Api.leave_group = LeaveGroup.decode >>= λ r. pure (Response.leave_group r)
decode_response Api.offset_commit = OffsetCommit.decode >>= λ r. pure (Response.offset_commit r)
decode_response Api.offset_fetch = OffsetFetch.decode >>= λ r. pure (Response.offset_fetch r)
decode_response Api.list_offsets = ListOffsets.decode >>= λ r. pure (Response.list_offsets r)

-- The fields fit their wire types and the sizes stay within the limits that the reader sets.
unfoldable pub IsWireBody : Response → Type 0
IsWireBody (produce r) = Produce.IsWire r
IsWireBody (fetch r) = Fetch.IsWire r
IsWireBody (metadata r) = Metadata.IsWire r
IsWireBody (create_topics r) = CreateTopics.IsWire r
IsWireBody (join_group r) = JoinGroup.IsWire r
IsWireBody (sync_group r) = SyncGroup.IsWire r
IsWireBody (heartbeat r) = Heartbeat.IsWire r
IsWireBody (leave_group r) = LeaveGroup.IsWire r
IsWireBody (offset_commit r) = OffsetCommit.IsWire r
IsWireBody (offset_fetch r) = OffsetFetch.IsWire r
IsWireBody (list_offsets r) = ListOffsets.IsWire r

-- For each of the same eleven APIs, a response body whose fields fit the wire types and whose sizes
-- keep to the limits of the reader is written without an error, and the decoder of its API reads it
-- back, taking exactly the bytes that were written, whatever stands before them in the writer and
-- behind them in the reader.
pub encode_response-Trips :
    (r : Response) → IsWireBody r → Trips (encode_response r) (decode_response (api_of r)) r
unfolding encode_response decode_response IsWireBody
encode_response-Trips (produce r) h = Trips-last Response.produce r (Produce.encode-Trips r h)
encode_response-Trips (fetch r) h = Trips-last Response.fetch r (Fetch.encode-Trips r h)
encode_response-Trips (metadata r) h = Trips-last Response.metadata r (Metadata.encode-Trips r h)
encode_response-Trips (create_topics r) h =
    Trips-last Response.create_topics r (CreateTopics.encode-Trips r h)
encode_response-Trips (join_group r) h =
    Trips-last Response.join_group r (JoinGroup.encode-Trips r h)
encode_response-Trips (sync_group r) h =
    Trips-last Response.sync_group r (SyncGroup.encode-Trips r h)
encode_response-Trips (heartbeat r) h = Trips-last Response.heartbeat r (Heartbeat.encode-Trips r h)
encode_response-Trips (leave_group r) h =
    Trips-last Response.leave_group r (LeaveGroup.encode-Trips r h)
encode_response-Trips (offset_commit r) h =
    Trips-last Response.offset_commit r (OffsetCommit.encode-Trips r h)
encode_response-Trips (offset_fetch r) h =
    Trips-last Response.offset_fetch r (OffsetFetch.encode-Trips r h)
encode_response-Trips (list_offsets r) h =
    Trips-last Response.list_offsets r (ListOffsets.encode-Trips r h)
