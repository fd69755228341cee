-- ===== src/Broker/Follower.antt =====
-- internal/broker/broker.go and broker_replication.go: handleReplicaFetch of the leader, and the
-- round in which a follower fetches from it. What the leader answers is an argument there.
pub mod Watermark
use mini_kafka.Prelude.{ℕ, ◌*◌, Bool, true, false, Option, none, some, List, [], ◌∷◌, if◌then◌else◌}
use mini_kafka.Prelude.Int.{ℤ, pos, ltb_ℤ, leb_ℤ, ◌+ℤ◌, ◌==ℤ◌}
use mini_kafka.Protocol.Stream.{Bytes}
use mini_kafka.Server.Handler.{err_none, err_unknown}
use mini_kafka.Storage.Record.{Record}
use mini_kafka.Storage.Log.{LogError}
use mini_kafka.Storage.Log.ReadFrom.{Found}
use mini_kafka.Replication.Purgatory.{check_and_complete}
use mini_kafka.Replication.Epoch.{same_partition}
use mini_kafka.Replication.Wire.{ReplicaFetchRequest}
use mini_kafka.Broker.Codes.{err_unknown_topic_or_partition, err_not_leader_for_partition}
use mini_kafka.Broker.Partition.{
  Partition, append_batch, read_from, set_high_watermark, log_end_offset,
}
use mini_kafka.Broker.State.{Broker, World, ClusterBroker, find_partition, with_partition}
use mini_kafka.Broker.Replicas.{is_leader, partition_leader, update_leader_leo, update_replica_leo}
use mini_kafka.Broker.Fetch.{is_eof}

-- What is sent back: a frame with an error code only, or the high watermark and the records, with
-- the waiting requests that get a nil.
pub data ReplicaFetched : Type 0 where
  rejected : ℤ → ReplicaFetched
  sent : ℤ → List Record → List ℕ → ReplicaFetched

-- The offset that the follower is taken to have reached.
unfoldable pub follower_leo : ℤ → List Record → ℤ
follower_leo offset [] = offset
follower_leo offset (r ∷ rs) = follower_leo (r.offset +ℤ pos 1) rs

-- Both offsets count, and the high watermark follows.
unfoldable pub advance_replica :
    World → Broker → ReplicaFetchRequest → Partition → List Record → Broker × ReplicaFetched
unfolding follower_leo
advance_replica w b req p rs =
    let leo = log_end_offset p in
    let b' = (update_leader_leo w b req.topic req.partition leo).0 in
    let (b'', hw) =
      update_replica_leo w b' req.topic req.partition req.replica_id
        (follower_leo req.fetch_offset rs) leo in
    let (purgatory, channels) = check_and_complete b''.purgatory req.topic req.partition hw in
    (
      record (with_partition b'' req.topic req.partition (set_high_watermark p hw)) {
        purgatory = purgatory;
      },
      sent hw rs channels,
    )

unfoldable pub replica_found :
    World → Broker → ReplicaFetchRequest → Partition × Found → Broker × ReplicaFetched
unfolding advance_replica
replica_found w b req (p, (rs, none)) = advance_replica w b req p rs
replica_found w b req (p, (rs, some e)) =
    if is_eof e
    then advance_replica w b req p rs
    else (with_partition b req.topic req.partition p, rejected err_unknown)

unfoldable pub fetch_max_bytes : Broker → ℤ
fetch_max_bytes b =
    if leb_ℤ b.config.replica_fetch_max_bytes (pos 0)
    then pos (1024 * 1024)
    else b.config.replica_fetch_max_bytes

unfoldable pub serve_replica :
    World → ReplicaFetchRequest → Partition → Broker × Bool → Broker × ReplicaFetched
unfolding replica_found fetch_max_bytes
serve_replica w req p (b, false) = (b, rejected err_not_leader_for_partition)
serve_replica w req p (b, true) =
    replica_found w b req (read_from p req.fetch_offset (fetch_max_bytes b))

unfoldable pub serve_at :
    World → Broker → ReplicaFetchRequest → Option Partition → Broker × ReplicaFetched
unfolding serve_replica
serve_at w b req none = (b, rejected err_unknown_topic_or_partition)
serve_at w b req (some p) = serve_replica w req p (is_leader b req.topic req.partition)

-- handleReplicaFetch, on the decoded request.
unfoldable pub handle_replica_fetch : World → Broker → ReplicaFetchRequest → Broker × ReplicaFetched
unfolding serve_at
handle_replica_fetch w b req = serve_at w b req (find_partition b req.topic req.partition)

-- The next offset to fetch, by partition.
pub record FetchOffset : Type 0 where
  pub topic : Bytes
  pub partition : ℤ
  pub offset : ℤ

pub offset_of : List FetchOffset → Bytes → ℤ → ℤ
offset_of [] topic partition = pos 0
offset_of (o ∷ os) topic partition =
    let rest = offset_of os topic partition in
    if same_partition o.topic o.partition topic partition then o.offset else rest

pub put_offset : List FetchOffset → Bytes → ℤ → ℤ → List FetchOffset
put_offset [] topic partition offset =
    record { topic = topic; partition = partition; offset = offset } ∷ []
put_offset (o ∷ os) topic partition offset =
    let rest = put_offset os topic partition offset in
    if same_partition o.topic o.partition topic partition
    then record o { offset = offset } ∷ os
    else o ∷ rest

-- What sendReplicaFetch gives: the records and the leader's high watermark, or an error.
pub data Answer : Type 0 where
  answered : List Record → ℤ → Answer
  no_answer : Answer

-- Where the follower fetches from: its log may be further than the last fetch, after a restart.
pub fetch_from : Partition → ℤ → ℤ
fetch_from p offset = if ltb_ℤ offset (log_end_offset p) then log_end_offset p else offset

-- The follower adopts the leader's high watermark as far as its log goes.
unfoldable pub adopt : Partition → ℤ → Partition
adopt p hw = set_high_watermark p (if ltb_ℤ (log_end_offset p) hw then log_end_offset p else hw)

abbrev Followed : Type 0
Followed = Broker × List FetchOffset

pub adopted : Broker → List FetchOffset → Bytes → ℤ → Partition → ℤ → ℤ → Followed
unfolding put_offset
adopted b os topic partition p hw offset =
    (with_partition b topic partition (adopt p hw), put_offset os topic partition offset)

pub after_follow :
    Broker → List FetchOffset → Bytes → ℤ → ℤ → Partition × (ℕ × Option LogError) → Followed
unfolding adopted
after_follow b os topic partition hw (p, (base, some e)) = (with_partition b topic partition p, os)
after_follow b os topic partition hw (p, (base, none)) =
    adopted b os topic partition p hw (log_end_offset p)

-- One target of followerFetchOnce, on the leader's answer to a fetch of `offset`.
pub follow_answer :
    World → Broker → List FetchOffset → Bytes → ℤ → Partition → ℤ → Answer → Followed
unfolding after_follow
follow_answer w b os topic partition p offset no_answer = (b, os)
follow_answer w b os topic partition p offset (answered [] hw) =
    adopted b os topic partition p hw offset
follow_answer w b os topic partition p offset (answered (r ∷ rs) hw) =
    after_follow b os topic partition hw (append_batch p w.now (r ∷ rs))

-- One target, whose leader is the remote broker, and that answers the fetch of an offset.
pub follow_target : World → Broker → List FetchOffset → ℤ → Bytes → ℤ → (ℤ → Answer) → Followed
unfolding follow_answer fetch_from offset_of
follow_target w b os leader_id topic partition ask = elim (find_partition b topic partition) [
  | none ↦ (b, os)
  | some p ↦
      let offset = fetch_from p (offset_of os topic partition) in
      if partition_leader b topic partition ==ℤ leader_id
      then follow_answer w b os topic partition p offset (ask offset)
      else (b, os)
]
