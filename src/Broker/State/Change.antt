-- ===== src/Broker/State/Change.antt =====
-- The maps of internal/broker/broker.go under a change of a partition or a tracker.
use mini_kafka.Prelude.{
  ◌≡◌, refl, Bool-cases, inl, inr, some, List, [], ◌∷◌, get_elem?-set_self, get_elem?-lt, str_eq,
}
use mini_kafka.Prelude.Int.{ℤ, pos, negsuc}
use mini_kafka.Protocol.Stream.{Bytes}
use mini_kafka.Replication.Epoch.{same_partition, same_partition_iff}
use mini_kafka.Replication.Isr.{IsrTracker}
use mini_kafka.Broker.Partition.{Partition}
use mini_kafka.Broker.Topic.{Topic, get_partition}
use mini_kafka.Broker.State.{
  Broker, TrackerEntry, find_topic, in_topic, find_partition, set_number, change_partition,
  with_partition, find_tracker, put_tracker,
}

number-found :
    (ps : List Partition) (id : ℤ) (p q : Partition) (t : Topic)
    → get_partition (record t { partitions = ps }) id ≡ some q
    → get_partition (record t { partitions = set_number ps id p }) id ≡ some p
unfolding get_partition
number-found ps (pos i) p q t e = get_elem?-set_self ps i p (get_elem?-lt ps i q e)
number-found ps (negsuc k) p q t e = cc

change-found :
    (ts : List Topic) (name : Bytes) (id : ℤ) (p q : Partition)
    → in_topic (find_topic ts name) id ≡ some q
    → in_topic (find_topic (change_partition ts name id p) name) id ≡ some p
unfolding find_topic change_partition
change-found [] name id p q = λ e. cc
change-found (t ∷ ts) name id p q = elim (Bool-cases (str_eq t.name name)) [
  | inl here ↦ simp here (number-found t.partitions id p q t)
  | inr other ↦ simp other (change-found ts name id p q)
]

-- What is put in the place of a partition that is there is found there.
pub find_partition-with_partition :
    (b : Broker) (name : Bytes) (id : ℤ) (p q : Partition)
    → find_partition b name id ≡ some q
    → find_partition (with_partition b name id p) name id ≡ some p
unfolding find_partition with_partition
find_partition-with_partition b name id p q = change-found b.topics name id p q

-- The same for the tracker of a partition.
pub find_tracker-put_tracker :
    (es : List TrackerEntry) (topic : Bytes) (id : ℤ) (t : IsrTracker)
    → find_tracker (put_tracker es topic id t) topic id ≡ some t
unfolding find_tracker put_tracker
find_tracker-put_tracker [] topic id t =
    simp ((same_partition_iff topic id topic id).1 (refl, refl)) refl
find_tracker-put_tracker (e ∷ es) topic id t =
    elim (Bool-cases (same_partition e.topic e.partition topic id)) [
      | inl here ↦ simp here refl
      | inr other ↦ simp other (find_tracker-put_tracker es topic id t)
    ]
