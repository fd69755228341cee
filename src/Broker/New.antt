-- ===== src/Broker/New.antt =====
-- internal/broker/broker.go: New, which makes a broker of its settings, of the metadata that was
-- persisted and of what the directories hold. The server and its table of handlers are made behind
-- it; Broker/Handlers.antt has the table.
use mini_kafka.Prelude.{ℕ, ◌^◌, Option, none, some, List, [], ◌∷◌, if◌then◌else◌}
use mini_kafka.Prelude.Int.{ℤ, wrap}
use mini_kafka.Storage.Log.Open.{SegmentFile}
use mini_kafka.Coordinator.Offsets.{OffsetStore, new_offset_store, start}
use mini_kafka.Replication.Purgatory.{new_purgatory}
use mini_kafka.Broker.Metadata.{MetadataManager, TopicMeta}
use mini_kafka.Broker.Partition.{is_valid_name}
use mini_kafka.Broker.Topic.{Topic, new_topic}
use mini_kafka.Broker.State.{Broker, BrokerConfig, World}
use mini_kafka.Broker.Replicas.{cluster_replica_ids}
use mini_kafka.Broker.Topics.{add_topic}

-- A broker without topics.
pub empty_broker : BrokerConfig → MetadataManager → OffsetStore → Broker
empty_broker cfg metadata offsets = record {
  config = cfg;
  local_id = wrap (2 ^ 31) cfg.id;
  replica_ids = cluster_replica_ids cfg;
  metadata = metadata;
  purgatory = new_purgatory;
  epochs = [];
  trackers = [];
  topics = [];
  listeners = [];
  offsets = offsets;
}

-- A topic that was persisted, as far as it opens.
pub load_opened : World → Broker → TopicMeta → Option Topic → Option Broker
load_opened w b meta none = none
load_opened w b meta (some t) = some (add_topic w b meta.name meta.num_partitions t)

pub load_topic : World → Option Broker → TopicMeta → Option Broker
unfolding load_opened
load_topic w none meta = none
load_topic w (some b) meta =
    if is_valid_name w.escapes meta.name
    then load_opened w b meta
        (new_topic meta.name meta.num_partitions b.config.log (w.files meta.name) w.now)
    else none

-- The loop over the topics that were persisted.
pub load_topics : World → Option Broker → List TopicMeta → Option Broker
unfolding load_topic
load_topics w b [] = b
load_topics w b (meta ∷ metas) = load_topics w (load_topic w b meta) metas

-- An offset store that did not start ends New.
abbrev on_started : World → BrokerConfig → MetadataManager → OffsetStore → Option Broker
on_started w cfg metadata store =
    unfold load_topics empty_broker in
    if store.started then load_topics w (some (empty_broker cfg metadata store)) metadata else none

-- New, with the number of partitions of the offset store and what its directories hold.
pub new_broker : World → BrokerConfig → ℤ → (ℕ → List SegmentFile) → MetadataManager → Option Broker
new_broker w cfg offsets_partitions offset_files metadata =
    on_started w cfg metadata (start (new_offset_store offsets_partitions) offset_files w.now)
