-- ===== src/Broker/State.antt =====
-- internal/broker/broker.go and internal/config/config.go: the state of a broker and the settings
-- that its handlers read. The maps are lists, searched by their keys. The surroundings of a call are
-- a record: the present time in nanoseconds, the high watermark that the checkpoint file of a
-- partition holds, the segments that a partition's directory holds, whether a write of the metadata
-- file succeeds, and whether a topic's path would lie outside the data directory.
pub mod Change
use mini_kafka.Prelude.{ℕ, Bool, Option, none, some, List, [], ◌∷◌, str_eq, if◌then◌else◌, ◌^◌, set}
use mini_kafka.Prelude.Int.{ℤ, pos, negsuc, wrap}
use mini_kafka.Protocol.Stream.{Bytes}
use mini_kafka.Storage.Config.{Config}
use mini_kafka.Storage.Log.Open.{SegmentFile}
use mini_kafka.Replication.Isr.{IsrTracker}
use mini_kafka.Replication.Epoch.{EpochManager, same_partition}
use mini_kafka.Replication.Purgatory.{Purgatory}
use mini_kafka.Coordinator.Offsets.{OffsetStore}
use mini_kafka.Broker.Metadata.{MetadataManager}
use mini_kafka.Broker.Partition.{Partition}
use mini_kafka.Broker.Topic.{Topic, get_partition}

pub record ClusterBroker : Type 0 where
  pub id : ℤ
  pub host : Bytes
  pub port : ℤ

-- The settings; `log` is what storageConfigFrom makes of the section of that name.
pub record BrokerConfig : Type 0 where
  pub id : ℤ
  pub host : Bytes
  pub port : ℤ
  pub log : Config
  pub max_message_bytes : ℤ
  pub auto_create : Bool
  pub default_partitions : ℤ
  pub default_replication_factor : ℤ
  pub replica_lag_time_max_ms : ℤ
  pub replica_fetch_max_bytes : ℤ
  pub min_insync_replicas : ℤ
  pub cluster : List ClusterBroker

pub record World : Type 0 where
  pub now : ℕ
  pub checkpoint : Bytes → ℤ → Option ℤ
  pub files : Bytes → ℕ → List SegmentFile
  pub saves : Bool
  pub escapes : Bytes → Bool

pub record TrackerEntry : Type 0 where
  pub topic : Bytes
  pub partition : ℤ
  pub tracker : IsrTracker

-- A registration of a channel, which is a number, for a partition.
pub record Listener : Type 0 where
  pub topic : Bytes
  pub partition : ℤ
  pub channel : ℕ

pub record Broker : Type 0 where
  pub config : BrokerConfig
  pub local_id : ℤ
  pub replica_ids : List ℤ
  pub metadata : MetadataManager
  pub purgatory : Purgatory
  pub epochs : EpochManager
  pub trackers : List TrackerEntry
  pub topics : List Topic
  pub listeners : List Listener
  pub offsets : OffsetStore

-- getTopic
unfoldable pub find_topic : List Topic → Bytes → Option Topic
find_topic [] name = none
find_topic (t ∷ ts) name =
    let rest = find_topic ts name in if str_eq t.name name then some t else rest

abbrev in_topic : Option Topic → ℤ → Option Partition
in_topic none partition = none
in_topic (some t) partition = get_partition t partition

-- A topic's partition.
unfoldable pub find_partition : Broker → Bytes → ℤ → Option Partition
find_partition b name partition = in_topic (find_topic b.topics name) partition

abbrev set_number : List Partition → ℤ → Partition → List Partition
set_number ps (pos i) p = set ps i p
set_number ps (negsuc k) p = ps

-- The topics with one partition changed.
unfoldable pub change_partition : List Topic → Bytes → ℤ → Partition → List Topic
change_partition [] name partition p = []
change_partition (t ∷ ts) name partition p =
    let rest = change_partition ts name partition p in
    if str_eq t.name name
    then record t { partitions = set_number t.partitions partition p } ∷ ts
    else t ∷ rest

unfoldable pub with_partition : Broker → Bytes → ℤ → Partition → Broker
with_partition b name partition p = record b { topics = change_partition b.topics name partition p }

-- getISRTracker
unfoldable pub find_tracker : List TrackerEntry → Bytes → ℤ → Option IsrTracker
find_tracker [] topic partition = none
find_tracker (e ∷ es) topic partition =
    let rest = find_tracker es topic partition in
    if same_partition e.topic e.partition topic partition then some e.tracker else rest

-- The map with a tracker for the partition.
unfoldable pub put_tracker : List TrackerEntry → Bytes → ℤ → IsrTracker → List TrackerEntry
put_tracker [] topic partition t = record { topic = topic; partition = partition; tracker = t } ∷ []
put_tracker (e ∷ es) topic partition t =
    let rest = put_tracker es topic partition t in
    if same_partition e.topic e.partition topic partition
    then record e { tracker = t } ∷ es
    else e ∷ rest
