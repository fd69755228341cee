-- ===== src/Examples/Broker.antt =====
-- A broker with the topic "o" of one partition, at concrete inputs.
use mini_kafka.Prelude.{
  ℕ, ◌^◌, ◌≡◌, ◌⊎◌, refl, true, false, none, some, [], ◌∷◌, ◌++◌, length, arith, str_eq,
}
use mini_kafka.Prelude.Int.{pos, negsuc}
use mini_kafka.Protocol.Stream.{Bytes}
use mini_kafka.Protocol.Requests.Fetch.{FetchRequestPartition}
use mini_kafka.Protocol.Requests.CreateTopics.{CreateTopicsRequestTopic}
use mini_kafka.Storage.Segment.Contents.{log_bytes}
use mini_kafka.Storage.Config.{with_defaults}
use mini_kafka.Storage.Log.Batch.{stamped_from}
use mini_kafka.Storage.Log.{highest_offset}
use mini_kafka.Storage.Log.Contents.{IsUsable}
use mini_kafka.Replication.Isr.{IsrTracker, ReplicaState, get_isr}
use mini_kafka.Replication.Epoch.{get_epoch, same_partition}
use mini_kafka.Coordinator.Offsets.{new_offset_store}
use mini_kafka.Broker.Partition.{Partition, is_valid_name}
use mini_kafka.Broker.Topic.{Topic, get_partition, partition_for}
use mini_kafka.Broker.Topic.Choice.{Has, turns, partition_for-Has}
use mini_kafka.Broker.Metadata.{get_topic}
use mini_kafka.Broker.Murmur.{murmur2}
use mini_kafka.Broker.State.{Broker, BrokerConfig, World, find_partition, find_topic, find_tracker}
use mini_kafka.Broker.Codes.{err_not_leader_for_partition}
use mini_kafka.Broker.Replicas.{promote_leader, min_insync_replicas}
use mini_kafka.Broker.Replicas.Fence.{promote_leader-Fences}
use mini_kafka.Broker.Listeners.{notify_appended}
use mini_kafka.Broker.Topics.{create_one}
use mini_kafka.Broker.Topics.Ready.{IsReady, create_one-IsReady}
use mini_kafka.Broker.Produce.{
  produce_partition, produce_at, settle, refused, start_wait, too_large,
}
use mini_kafka.Broker.Produce.Leader.{Produces, produce_partition-Produces}
use mini_kafka.Broker.Produce.Refused.{Untouched, produce_partition-Untouched}
use mini_kafka.Broker.Produce.Sole.{IsSole, produce_partition-pending}
use mini_kafka.Broker.Fetch.{FetchTarget, fetch_partition, register_all, unregister_all}
use mini_kafka.Broker.Fetch.Committed.{Committed, fetch_partition-Committed}
use mini_kafka.Broker.Fetch.Leaks.{times, unregister_all-register_all}
use mini_kafka.Broker.Follower.{rejected, handle_replica_fetch}
use mini_kafka.Examples.Log.{rec, log, config, log-LogHolds, rec-IsRecord}

-- Test vectors of the hash, for "test" and "mini-kafka".
murmur2_test : murmur2 (116 ∷ 101 ∷ 115 ∷ 116 ∷ []) ≡ 146065218
unfolding murmur2
murmur2_test = refl

abbrev name : Bytes
name = 111 ∷ []

abbrev world : World
world = record {
  now = 10 ^ 10;
  checkpoint = λ topic id. none;
  files = λ topic i. [];
  saves = true;
  escapes = λ topic. false;
}

abbrev settings : BrokerConfig
settings = record {
  id = pos 1;
  host = [];
  port = pos 9092;
  log = config;
  max_message_bytes = pos 0;
  auto_create = true;
  default_partitions = pos 1;
  default_replication_factor = pos 1;
  replica_lag_time_max_ms = pos 5000;
  replica_fetch_max_bytes = pos 1000;
  min_insync_replicas = pos 1;
  cluster = [];
}

-- A log with records at 7 and 8, of which the first is committed.
abbrev part : Partition
part = record { log = log; high_watermark = pos 8 }

abbrev orders : Topic
orders = record { name = name; partitions = part ∷ []; round_robin_counter = 0 }

abbrev replica : ReplicaState
replica = record {
  broker_id = pos 1;
  log_end_offset = pos 9;
  last_caught_up_time = 0;
  in_sync = true;
}

abbrev tracker : IsrTracker
tracker = record {
  replicas = replica ∷ [];
  leader_id = pos 1;
  replica_lag_time_max_ms = 5000;
  high_watermark = pos 8;
}

abbrev broker : Broker
broker = record {
  config = settings;
  local_id = pos 1;
  replica_ids = pos 1 ∷ [];
  metadata = record { name = name; num_partitions = pos 1; replication_factor = pos 1 } ∷ [];
  purgatory = record { items = []; next_id = 0 };
  epochs = record { topic = name; partition = pos 0; epoch = pos 1; leader_id = pos 1 } ∷ [];
  trackers = record { topic = name; partition = pos 0; tracker = tracker } ∷ [];
  topics = orders ∷ [];
  listeners = [];
  offsets = new_offset_store (pos 50);
}

there : find_partition broker name (pos 0) ≡ some part
unfolding find_partition find_topic get_partition str_eq
there = refl

abbrev from_seven : FetchRequestPartition
from_seven = record { partition_id = pos 0; fetch_offset = pos 7; max_bytes = pos 100 }

fetch_partition-Committed_example :
    Committed part from_seven (fetch_partition name broker from_seven).1
fetch_partition-Committed_example = fetch_partition-Committed broker name from_seven part there

promote_leader-Fences_example :
    (produce_partition world
        (pos 1)
        name
        (promote_leader world broker name (pos 0) (pos 2)).0
        (record { partition_id = pos 0; record_set = log_bytes (rec 0 ∷ []) })
      ≡ (
        (promote_leader world broker name (pos 0) (pos 2)).0,
        refused (pos 0) err_not_leader_for_partition,
      ))
    × (handle_replica_fetch world (promote_leader world broker name (pos 0) (pos 2)).0 (record {
      replica_id = pos 3;
      max_wait_ms = pos 0;
      topic = name;
      partition = pos 0;
      fetch_offset = pos 7;
    })
        ≡ (
          (promote_leader world broker name (pos 0) (pos 2)).0,
          rejected err_not_leader_for_partition,
        ))
promote_leader-Fences_example =
    promote_leader-Fences world broker name (pos 0) (pos 2) (pos 1) (log_bytes (rec 0 ∷ [])) (pos 3)
      (pos 0) (pos 7) part (ground arith) there

leads : get_epoch broker.epochs name (pos 0) ≡ some (pos 1, pos 1)
unfolding get_epoch same_partition str_eq
leads = refl

tracks : find_tracker broker.trackers name (pos 0) ≡ some tracker
unfolding find_tracker same_partition str_eq
tracks = refl

room : too_large broker (log_bytes (rec 0 ∷ [])) ≡ false
unfolding too_large
room = refl

produce_partition-Produces_example :
    Produces
      (negsuc 0)
      name
      (pos 0)
      (pos 8)
      7
      9
      ((rec 7 ∷ rec 8 ∷ []) ++ stamped_from 9 (rec 0 ∷ []))
      (produce_partition world
        (negsuc 0)
        name
        broker
        (record { partition_id = pos 0; record_set = log_bytes (rec 0 ∷ []) }))
unfolding min_insync_replicas get_isr
produce_partition-Produces_example =
    produce_partition-Produces world (negsuc 0) name (pos 0) broker part 7 (rec 7 ∷ rec 8 ∷ [])
      (rec 0) [] there log-LogHolds (rec-IsRecord 0 (omega arith), tt)
      (rec-IsRecord 9 (omega arith), tt) room (pos 1) tracker leads tracks (λ all. omega arith)

accepted :
    Produces
      (negsuc 0)
      name
      (pos 0)
      (pos 8)
      7
      9
      ((rec 7 ∷ rec 8 ∷ []) ++ stamped_from 9 (rec 0 ∷ []))
      (produce_partition world
        (negsuc 0)
        name
        broker
        (record { partition_id = pos 0; record_set = log_bytes (rec 0 ∷ []) }))
unfolding min_insync_replicas get_isr
accepted =
    produce_partition-Produces world (negsuc 0) name (pos 0) broker part 7 (rec 7 ∷ rec 8 ∷ [])
      (rec 0) [] there log-LogHolds (rec-IsRecord 0 (omega arith), tt)
      (rec-IsRecord 9 (omega arith), tt) room (pos 1) tracker leads tracks (λ all. omega arith)

-- A partition that is not there.
no_second : find_partition broker name (pos 1) ≡ none
unfolding find_partition find_topic get_partition str_eq
no_second = refl

produce_partition-Untouched_example : Untouched broker (
    produce_partition world
      (pos 1)
      name
      broker
      (record { partition_id = pos 1; record_set = 1 ∷ [] }))
unfolding settle produce_partition produce_at
produce_partition-Untouched_example =
    produce_partition-Untouched world (pos 1) name broker
      (record { partition_id = pos 1; record_set = 1 ∷ [] }) (λ ack. true)
      (rw no_second (ground arith)) (rw no_second (ground arith)) (rw no_second (ground arith))

tracker-IsSole : IsSole (pos 1) tracker
tracker-IsSole = record { replica = replica; only = refl; leads = refl; is_local = refl }

abbrev target : FetchTarget
target = record { topic = name; partition = pos 0; target_offset = pos 9 }

unregister_all-register_all_example :
    times 5 (
      notify_appended
        (unregister_all
          (target ∷ target ∷ [])
          5
          (register_all (target ∷ target ∷ []) 5 broker)).listeners
        name
        (pos 0))
    ≡ 0
unfolding notify_appended
unregister_all-register_all_example =
    unregister_all-register_all (target ∷ target ∷ []) 5 broker
      (register_all (target ∷ target ∷ []) 5 broker) (λ t p. refl) name (pos 0) 5

defaults-IsUsable : IsUsable (with_defaults config)
unfolding with_defaults
defaults-IsUsable = record {
  index_room = omega arith;
  some_bytes = omega arith;
  positions = omega arith;
}

abbrev topic_two : CreateTopicsRequestTopic
topic_two = record { name = 112 ∷ []; num_partitions = pos 2; replication_factor = pos 1 }

legal : is_valid_name world.escapes (112 ∷ []) ≡ true
unfolding is_valid_name str_eq
legal = refl

absent : get_topic broker.metadata (112 ∷ []) ≡ none
unfolding get_topic str_eq
absent = refl

create_one-IsReady_example :
    IsReady world broker topic_two 2 defaults-IsUsable
      (λ j. refl)
      refl
      (create_one world broker topic_two)
create_one-IsReady_example =
    create_one-IsReady world broker topic_two 2 defaults-IsUsable (λ j. refl) refl legal
      (omega arith) absent refl

partition_for-Has_example :
    Has orders (partition_for (turns 3 orders) (107 ∷ [])).1
    × ((turns 3 orders).partitions ≡ part ∷ [])
    × ((partition_for (turns 3 orders) []).1 ≡ pos 0)
    × ((length {A = ℕ} (107 ∷ []) ≡ 0)
        ⊎ ((partition_for (turns 3 orders) (107 ∷ [])).1 ≡ (partition_for orders (107 ∷ [])).1))
partition_for-Has_example =
    partition_for-Has orders 3 (107 ∷ []) (omega arith) (omega arith) (omega arith)

-- A produce to the sole replica, and the wait that it needs.
produce_partition-pending_example :
    (start_wait world
      (produce_partition world
        (negsuc 0)
        name
        broker
        (record { partition_id = pos 0; record_set = log_bytes (rec 0 ∷ []) })).0
      (record {
        topic = name;
        partition = pos 0;
        required_hw = pos (highest_offset accepted.partition.log);
      })
      4).1
    ≡ none
produce_partition-pending_example =
    produce_partition-pending world world 4 (negsuc 0) name (pos 0) broker tracker tracks
      tracker-IsSole (log_bytes (rec 0 ∷ [])) (pos 1) (pos 1) leads
      (record {
        topic = name;
        partition = pos 0;
        required_hw = pos (highest_offset accepted.partition.log);
      })
      accepted.waits
