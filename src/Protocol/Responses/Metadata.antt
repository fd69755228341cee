-- ===== src/Protocol/Responses/Metadata.antt =====
-- internal/protocol/responses.go: the Metadata response (apiKey 2).
use mini_kafka.Prelude.{All, List, length, ◌≤◌}
use mini_kafka.Prelude.Int.{IsInt16, IsInt32, ℤ}
use mini_kafka.Protocol.Stream.{Bytes, Reader, Writer, pure, ◌>>=◌, ◌>>◌}
use mini_kafka.Protocol.Trips.{Trips, Trips-last, Trips-seq}
use mini_kafka.Protocol.Codec.{
  int16, int32, max_int16, max_int32, put_int16, put_int32, put_string, string,
}
use mini_kafka.Protocol.Codec.Array.{Trips-array, put_array, read_array}
use mini_kafka.Protocol.Codec.RoundTrip.{Trips-int16, Trips-int32, Trips-string}

pub record BrokerMetadata : Type 0 where
  pub node_id : ℤ
  pub host : Bytes
  pub port : ℤ

pub record PartitionMetadata : Type 0 where
  pub partition_id : ℤ
  pub leader : ℤ
  pub replicas : List ℤ
  pub isr : List ℤ

pub record TopicMetadata : Type 0 where
  pub name : Bytes
  pub error_code : ℤ
  pub partitions : List PartitionMetadata

pub record MetadataResponse : Type 0 where
  pub brokers : List BrokerMetadata
  pub topics : List TopicMetadata

put_broker : BrokerMetadata → Writer
put_broker b = do put_int32 b.node_id; put_string b.host; put_int32 b.port

put_partition : PartitionMetadata → Writer
put_partition p = do
  put_int32 p.partition_id
  put_int32 p.leader
  put_array put_int32 p.replicas
  put_array put_int32 p.isr

put_topic : TopicMetadata → Writer
put_topic t = do put_string t.name; put_int16 t.error_code; put_array put_partition t.partitions

pub encode : MetadataResponse → Writer
encode r = do put_array put_broker r.brokers; put_array put_topic r.topics

get_broker : Reader BrokerMetadata
get_broker = do
  node_id ← int32
  host ← string
  port ← int32
  pure (record { node_id = node_id; host = host; port = port })

get_partition : Reader PartitionMetadata
get_partition = do
  partition_id ← int32
  leader ← int32
  replicas ← read_array int32
  isr ← read_array int32
  pure (record { partition_id = partition_id; leader = leader; replicas = replicas; isr = isr })

get_topic : Reader TopicMetadata
get_topic = do
  name ← string
  error_code ← int16
  partitions ← read_array get_partition
  pure (record { name = name; error_code = error_code; partitions = partitions })

pub decode : Reader MetadataResponse
decode = do
  brokers ← read_array get_broker
  topics ← read_array get_topic
  pure (record { brokers = brokers; topics = topics })

pub record IsWireBroker (b : BrokerMetadata) : Type 0 where
  pub node_id : IsInt32 b.node_id
  pub host : length b.host ≤ max_int16
  pub port : IsInt32 b.port

pub record IsWirePartition (p : PartitionMetadata) : Type 0 where
  pub partition_id : IsInt32 p.partition_id
  pub leader : IsInt32 p.leader
  pub count_replicas : length p.replicas ≤ max_int32
  pub replicas : All IsInt32 p.replicas
  pub count_isr : length p.isr ≤ max_int32
  pub isr : All IsInt32 p.isr

pub record IsWireTopic (t : TopicMetadata) : Type 0 where
  pub name : length t.name ≤ max_int16
  pub error_code : IsInt16 t.error_code
  pub count_partitions : length t.partitions ≤ max_int32
  pub partitions : All IsWirePartition t.partitions

pub record IsWire (r : MetadataResponse) : Type 0 where
  pub count_brokers : length r.brokers ≤ max_int32
  pub brokers : All IsWireBroker r.brokers
  pub count_topics : length r.topics ≤ max_int32
  pub topics : All IsWireTopic r.topics

put_broker-Trips : (b : BrokerMetadata) → IsWireBroker b → Trips (put_broker b) get_broker b
unfolding put_broker get_broker
put_broker-Trips b h =
    Trips-seq _ _ (Trips-int32 _ h.node_id)
      (Trips-seq _ _ (Trips-string _ h.host) (Trips-last _ _ (Trips-int32 _ h.port)))

put_partition-Trips :
    (p : PartitionMetadata) → IsWirePartition p → Trips (put_partition p) get_partition p
unfolding put_partition get_partition
put_partition-Trips p h = Trips-seq _ _ (Trips-int32 _ h.partition_id) (
    Trips-seq _ _ (Trips-int32 _ h.leader) (
      Trips-seq _ _ (Trips-array _ _ Trips-int32 _ h.count_replicas h.replicas)
        (Trips-last _ _ (Trips-array _ _ Trips-int32 _ h.count_isr h.isr))))

put_topic-Trips : (t : TopicMetadata) → IsWireTopic t → Trips (put_topic t) get_topic t
unfolding put_topic get_topic
put_topic-Trips t h = Trips-seq _ _ (Trips-string _ h.name) (
    Trips-seq _ _ (Trips-int16 _ h.error_code)
      (Trips-last _ _ (Trips-array _ _ put_partition-Trips _ h.count_partitions h.partitions)))

-- What MetadataResponse writes is read back whole, wherever it stands in the stream.
pub encode-Trips : (r : MetadataResponse) → IsWire r → Trips (encode r) decode r
unfolding encode decode
encode-Trips r h =
    Trips-seq _ _ (Trips-array _ _ put_broker-Trips _ h.count_brokers h.brokers)
      (Trips-last _ _ (Trips-array _ _ put_topic-Trips _ h.count_topics h.topics))
