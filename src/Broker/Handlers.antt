-- ===== src/Broker/Handlers.antt =====
-- internal/broker/broker.go: the handlers as the server calls them, from the request's frame to the
-- response's, those of the offsets and of the versions included, and the table of New. The handlers
-- of the groups of consumers only pass on to the coordinator and are not among them.
use mini_kafka.Prelude.{ℕ, Bool, Option, none, some, List, [], ◌∷◌, if◌then◌else◌}
use mini_kafka.Prelude.Int.{ℤ, pos, ◌==ℤ◌}
use mini_kafka.Protocol.Stream.{Bytes, Result, ok, err, Reader, Writer}
use mini_kafka.Protocol.Frame.{RequestFrame, ResponseFrame}
use mini_kafka.Protocol.Requests
use mini_kafka.Protocol.Requests.OffsetCommit.{
  OffsetCommitRequest, OffsetCommitRequestTopic, OffsetCommitRequestPartition,
}
use mini_kafka.Protocol.Requests.OffsetFetch.{OffsetFetchRequest, OffsetFetchRequestTopic}
use mini_kafka.Protocol.Responses
use mini_kafka.Protocol.Responses.OffsetCommit.{
  OffsetCommitResponse, OffsetCommitResponseTopic, OffsetCommitResponsePartition,
}
use mini_kafka.Protocol.Responses.OffsetFetch.{
  OffsetFetchResponse, OffsetFetchResponseTopic, OffsetFetchResponsePartition,
}
use mini_kafka.Protocol.Responses.ApiVersions.{ApiVersion, ApiVersionsResponse}
use mini_kafka.Server.Handler.{Outcome, returned, plain, err_none, err_unknown}
use mini_kafka.Coordinator.Offsets.{commit, fetch}
use mini_kafka.Replication.Wire.{
  decode_replica_fetch_request, encode_replica_fetch_response, ReplicaFetchRequest,
}
use mini_kafka.Broker.State.{Broker, World}
use mini_kafka.Broker.Topics.{handle_create_topics, handle_metadata}
use mini_kafka.Broker.Produce.{PendingAck, handle_produce}
use mini_kafka.Broker.Fetch.{handle_fetch, handle_list_offsets}
use mini_kafka.Broker.Follower.{ReplicaFetched, rejected, sent, handle_replica_fetch}

commit_partitions :
    World
    → Bytes
    → Bytes
    → Broker
    → List OffsetCommitRequestPartition
    → Broker × List OffsetCommitResponsePartition
commit_partitions w group_id topic b [] = (b, [])
commit_partitions w group_id topic b (p ∷ ps) =
    let b' = record b { offsets = commit b.offsets w.now group_id topic p.partition_id p.offset } in
    let (b'', outs) = commit_partitions w group_id topic b' ps in
    (b'', record { partition_id = p.partition_id; error_code = err_none } ∷ outs)

commit_topics :
    World → Bytes → Broker → List OffsetCommitRequestTopic → Broker × List OffsetCommitResponseTopic
unfolding commit_partitions
commit_topics w group_id b [] = (b, [])
commit_topics w group_id b (t ∷ ts) =
    let (b', outs) = commit_partitions w group_id t.name b t.partitions in
    let (b'', rest) = commit_topics w group_id b' ts in
    (b'', record { name = t.name; partitions = outs } ∷ rest)

-- handleOffsetCommit, on the decoded request: the generation and the member are not looked at.
pub handle_offset_commit : World → Broker → OffsetCommitRequest → Broker × OffsetCommitResponse
unfolding commit_topics
handle_offset_commit w b req =
    let (b', outs) = commit_topics w req.group_id b req.topics in (b', record { topics = outs })

fetch_partitions : Broker → Bytes → Bytes → List ℤ → List OffsetFetchResponsePartition
fetch_partitions b group_id topic [] = []
fetch_partitions b group_id topic (id ∷ ids) =
    record { partition_id = id; offset = fetch b.offsets group_id topic id; error_code = err_none }
    ∷ fetch_partitions b group_id topic ids

fetch_topics : Broker → Bytes → List OffsetFetchRequestTopic → List OffsetFetchResponseTopic
unfolding fetch_partitions
fetch_topics b group_id [] = []
fetch_topics b group_id (t ∷ ts) =
    record { name = t.name; partitions = fetch_partitions b group_id t.name t.partitions }
    ∷ fetch_topics b group_id ts

-- handleOffsetFetch, on the decoded request.
pub handle_offset_fetch : Broker → OffsetFetchRequest → OffsetFetchResponse
unfolding fetch_topics
handle_offset_fetch b req = record { topics = fetch_topics b req.group_id req.topics }

abbrev version : ℕ → ℕ → ApiVersion
version key v = record { api_key = pos key; min_version = pos v; max_version = pos v }

-- What handleApiVersions answers.
pub api_versions : ApiVersionsResponse
api_versions = record {
  api_keys =
      version 0 1
      ∷ version 1 1
      ∷ version 2 1
      ∷ version 3 1
      ∷ version 4 1
      ∷ version 5 1
      ∷ version 6 1
      ∷ version 7 1
      ∷ version 8 1
      ∷ version 9 1
      ∷ version 10 1
      ∷ version 11 1
      ∷ version 12 0
      ∷ [];
}

abbrev frame : ℤ → Bytes → ResponseFrame
frame code body = record { size = pos 0; correlation_id = pos 0; error_code = code; payload = body }

-- The response that was encoded, or the error.
pub answered : Result (Unit {0}) × Bytes → Outcome
answered (ok u, body) = returned (some (frame err_none body)) none
answered (err e, body) = returned none (some plain)

module _ {A B : Type 0} where
  abbrev on_decoded :
      (Broker → A → Broker × B) → (B → Writer) → Broker → Result A → Broker × Outcome
  on_decoded handler put b (err e) = (b, returned (some (frame err_unknown [])) none)
  on_decoded handler put b (ok req) = let (b', resp) = handler b req in (b', answered (put resp []))

  -- A handler around the payloads: a request that does not decode changes nothing.
  unfoldable pub framed :
      Reader A → (B → Writer) → (Broker → A → Broker × B) → Broker → RequestFrame → Broker × Outcome
  framed get put handler b req = on_decoded handler put b (get req.payload).0

abbrev replica_answer : Broker × ReplicaFetched → Broker × Outcome
replica_answer (b, rejected code) = (b, returned (some (frame code [])) none)
replica_answer (b, sent hw rs channels) =
    (b, answered (encode_replica_fetch_response err_none hw rs []))

abbrev on_replica_fetch : World → Broker → Result ReplicaFetchRequest → Broker × Outcome
on_replica_fetch w b (err e) = (b, returned (some (frame err_unknown [])) none)
on_replica_fetch w b (ok req) = replica_answer (handle_replica_fetch w b req)

abbrev pub Handler : Type 0
Handler = Broker → RequestFrame → Broker × Outcome

-- The table of New, by the API key. `acked` says which waits of a produce are answered in time.
pub handler_for : World → (PendingAck → Bool) → ℤ → Option Handler
handler_for w acked key =
    if key ==ℤ pos 0
    then some (framed Requests.Produce.decode Responses.Produce.encode (handle_produce w acked))
    else if key ==ℤ pos 1
    then some (framed Requests.Fetch.decode Responses.Fetch.encode handle_fetch)
    else if key ==ℤ pos 2
    then some (framed Requests.Metadata.decode Responses.Metadata.encode (handle_metadata w))
    else if key ==ℤ pos 3
    then some
        (framed Requests.CreateTopics.decode Responses.CreateTopics.encode (handle_create_topics w))
    else if key ==ℤ pos 8
    then some
        (framed Requests.OffsetCommit.decode Responses.OffsetCommit.encode (handle_offset_commit w))
    else if key ==ℤ pos 9
    then some (
        framed Requests.OffsetFetch.decode Responses.OffsetFetch.encode
          (λ b req. (b, handle_offset_fetch b req)))
    else if key ==ℤ pos 10
    then some (
        framed Requests.ListOffsets.decode Responses.ListOffsets.encode
          (λ b req. (b, handle_list_offsets b req)))
    else if key ==ℤ pos 11
    then some (λ b req. on_replica_fetch w b (decode_replica_fetch_request req.payload).0)
    else if key ==ℤ pos 12
    then some (λ b req. (b, answered (Responses.ApiVersions.encode api_versions [])))
    else none
