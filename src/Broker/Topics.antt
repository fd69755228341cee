-- ===== src/Broker/Topics.antt =====
-- internal/broker/broker.go: getOrCreateTopic, CreateTopics and Metadata.
pub mod Ready
use mini_kafka.Prelude.{
  ℕ, ◌^◌, Bool, true, false, Option, none, some, List, [], ◌∷◌, map, if◌then◌else◌, zero, suc,
}
use mini_kafka.Prelude.Int.{ℤ, pos, wrap, leb_ℤ, pos_part}
use mini_kafka.Protocol.Stream.{Bytes}
use mini_kafka.Protocol.Requests.CreateTopics.{CreateTopicsRequest, CreateTopicsRequestTopic}
use mini_kafka.Protocol.Requests.Metadata.{MetadataRequest}
use mini_kafka.Protocol.Responses.CreateTopics.{CreateTopicsResponse, CreateTopicResponseTopic}
use mini_kafka.Protocol.Responses.Metadata.{MetadataResponse, TopicMetadata, PartitionMetadata}
use mini_kafka.Server.Handler.{err_none, err_unknown}
use mini_kafka.Replication.Isr.{get_isr}
use mini_kafka.Broker.Codes.{
  err_unknown_topic_or_partition, err_invalid_topic_exception, err_invalid_partition_count,
  err_topic_already_exists,
}
use mini_kafka.Broker.Metadata.{
  TopicMeta, Created, exists, created, not_saved, get_topic, create_topic, list_names,
}
use mini_kafka.Broker.Partition.{is_valid_name}
use mini_kafka.Broker.Topic.{Topic, new_topic}
use mini_kafka.Broker.State.{Broker, World, find_topic, find_tracker}
use mini_kafka.Broker.Replicas.{init_topic_replication, partition_leader, cluster_broker_metadata}

-- An error of getOrCreateTopic: an invalid name (ErrInvalidTopicName), or another one.
pub data TopicError : Type 0 where
  invalid_topic_name other_error : TopicError

-- The new topic in the map, with its replication.
pub add_topic : World → Broker → Bytes → ℤ → Topic → Broker
add_topic w b name num_partitions t =
    init_topic_replication w (record b { topics = t ∷ b.topics }) name num_partitions

pub open_topic : World → Broker → Bytes → ℤ → Broker × Option TopicError
unfolding add_topic
open_topic w b name num_partitions =
    elim (new_topic name num_partitions b.config.log (w.files name) w.now) [
      | none ↦ (b, some other_error)
      | some t ↦ (add_topic w b name num_partitions t, none)
    ]

-- Behind the creation of the metadata entry.
pub after_create : World → Broker → Bytes → Created → Broker × Option TopicError
unfolding open_topic
after_create w b name not_saved = (b, some other_error)
after_create w b name (exists meta) = open_topic w b name meta.num_partitions
after_create w b name (created meta) = open_topic w b name meta.num_partitions

abbrev at_least_one : ℤ → ℤ
at_least_one n = if leb_ℤ n (pos 0) then pos 1 else n

-- The number of partitions of a topic that is not there: none without auto creation.
pub chosen_partitions : Broker → ℤ → Option ℤ
chosen_partitions b requested =
    if leb_ℤ requested (pos 0)
    then (if b.config.auto_create
        then some (at_least_one (wrap (2 ^ 31) b.config.default_partitions))
        else none)
    else some requested

pub create_missing : World → Broker → Bytes → Option ℤ → Broker × Option TopicError
unfolding after_create
create_missing w b name none = (b, some other_error)
create_missing w b name (some n) =
    let (mm, out) =
      create_topic b.metadata w.saves name n
        (at_least_one (wrap (2 ^ 15) b.config.default_replication_factor)) in
    after_create w (record b { metadata = mm }) name out

-- getOrCreateTopic: without an error, the topic is in the map.
pub get_or_create_topic : World → Broker → Bytes → ℤ → Broker × Option TopicError
unfolding create_missing chosen_partitions
get_or_create_topic w b name requested =
    if is_valid_name w.escapes name
    then elim (find_topic b.topics name) [
      | some t ↦ (b, none)
      | none ↦ create_missing w b name (chosen_partitions b requested)
    ]
    else (b, some invalid_topic_name)

abbrev pub creation : Bytes → ℤ → CreateTopicResponseTopic
creation name code = record { name = name; error_code = code }

pub put_topic : World → Broker → Bytes → ℤ → Option Topic → Broker × CreateTopicResponseTopic
unfolding add_topic
put_topic w b name num_partitions none = (b, creation name err_unknown)
put_topic w b name num_partitions (some t) =
    (add_topic w b name num_partitions t, creation name err_none)

pub finish_create :
    World → Broker → CreateTopicsRequestTopic → Created → Broker × CreateTopicResponseTopic
unfolding put_topic
finish_create w b req not_saved = (b, creation req.name err_unknown)
finish_create w b req (exists meta) = (b, creation req.name err_topic_already_exists)
finish_create w b req (created meta) =
    put_topic w b req.name req.num_partitions
      (new_topic req.name req.num_partitions b.config.log (w.files req.name) w.now)

-- One topic of a CreateTopics request.
pub create_one : World → Broker → CreateTopicsRequestTopic → Broker × CreateTopicResponseTopic
unfolding finish_create
create_one w b req =
    if is_valid_name w.escapes req.name
    then (if leb_ℤ req.num_partitions (pos 0)
        then (b, creation req.name err_invalid_partition_count)
        else let (mm, out) =
            create_topic b.metadata w.saves req.name req.num_partitions req.replication_factor in
          finish_create w (record b { metadata = mm }) req out)
    else (b, creation req.name err_invalid_topic_exception)

pub create_all :
    World → Broker → List CreateTopicsRequestTopic → Broker × List CreateTopicResponseTopic
unfolding create_one
create_all w b [] = (b, [])
create_all w b (req ∷ reqs) =
    let (b', out) = create_one w b req in
    let (b'', outs) = create_all w b' reqs in (b'', out ∷ outs)

-- handleCreateTopics, on the decoded request.
pub handle_create_topics : World → Broker → CreateTopicsRequest → Broker × CreateTopicsResponse
unfolding create_all
handle_create_topics w b req =
    let (b', outs) = create_all w b req.topics in (b', record { topics = outs })

-- The in-sync replicas as the metadata shows them: all replicas if there is no tracker.
shown_isr : Broker → Bytes → ℤ → List ℤ
shown_isr b name partition = elim (find_tracker b.trackers name partition) [
  | none ↦ b.replica_ids
  | some t ↦ get_isr t.replicas
]

partition_metadata : Broker → Bytes → ℕ → ℕ → List PartitionMetadata
unfolding shown_isr
partition_metadata b name p zero = []
partition_metadata b name p (suc count) =
    record {
      partition_id = pos p;
      leader = partition_leader b name (pos p);
      replicas = b.replica_ids;
      isr = shown_isr b name (pos p);
    }
    ∷ partition_metadata b name (suc p) count

pub topic_metadata : Broker → Bytes → Option TopicMeta → TopicMetadata
unfolding partition_metadata
topic_metadata b name none = record {
  name = name;
  error_code = err_unknown_topic_or_partition;
  partitions = [];
}
topic_metadata b name (some tm) = record {
  name = name;
  error_code = err_none;
  partitions = partition_metadata b name 0 (pos_part tm.num_partitions);
}

-- Behind the attempt to create the topic.
pub describe_created : Bytes → Broker × Option TopicError → Broker × TopicMetadata
unfolding topic_metadata
describe_created name (b, some e) = (b, topic_metadata b name none)
describe_created name (b, none) = (b, topic_metadata b name (get_topic b.metadata name))

-- One topic of a Metadata request, which may create it.
pub describe_one : World → Broker → Bytes → Broker × TopicMetadata
unfolding get_or_create_topic topic_metadata describe_created
describe_one w b name = elim (get_topic b.metadata name) [
  | some tm ↦ (b, topic_metadata b name (some tm))
  | none ↦
      if b.config.auto_create
      then describe_created name (get_or_create_topic w b name (pos 0))
      else (b, topic_metadata b name none)
]

pub describe_all : World → Broker → List Bytes → Broker × List TopicMetadata
unfolding describe_one
describe_all w b [] = (b, [])
describe_all w b (name ∷ names) =
    let (b', out) = describe_one w b name in
    let (b'', outs) = describe_all w b' names in (b'', out ∷ outs)

abbrev asked : Broker → Option (List Bytes) → List Bytes
asked b none = list_names b.metadata
asked b (some names) = names

-- handleMetadata, on the decoded request: without a list, all topics.
pub handle_metadata : World → Broker → MetadataRequest → Broker × MetadataResponse
unfolding describe_all
handle_metadata w b req =
    let (b', outs) = describe_all w b (asked b req.topics) in
    (b', record { brokers = cluster_broker_metadata b; topics = outs })
