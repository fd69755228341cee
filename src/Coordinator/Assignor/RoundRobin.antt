-- ===== src/Coordinator/Assignor/RoundRobin.antt =====
-- internal/coordinator/assignor.go: the round robin assignor, and the choice of an assignor by name.
use mini_kafka.Prelude.{
  ℕ, suc, ◌%◌, Bool, false, Option, none, some, List, [], ◌∷◌, ◌++◌, ◌==◌, str_eq, length, map,
  get_elem?, if◌then◌else◌,
}
use mini_kafka.Prelude.Int.{ℤ, pos_part}
use mini_kafka.Protocol.Stream.{Bytes}
use mini_kafka.Coordinator.Assignor.{
  PartitionAssignment, Assigned, TopicCount, sort_strings, numbers, count_of, assign,
}

pub record TopicPartition : Type 0 where
  pub topic : Bytes
  pub partition_id : ℤ

-- allTPs, of the sorted topics.
abbrev pub of_topic : Bytes → List ℤ → List TopicPartition
of_topic topic ids = map (λ id. record { topic = topic; partition_id = id }) ids

pub all_tps : List TopicCount → List Bytes → List TopicPartition
all_tps counts [] = []
all_tps counts (topic ∷ topics) =
    of_topic topic (numbers 0 (pos_part (count_of topic counts))) ++ all_tps counts topics

-- Whether the partition number `i` goes to `member`: Go divides by the number of members, which is
-- not 0.
abbrev pub hits : Option Bytes → Bytes → Bool
hits none member = false
hits (some m) member = str_eq m member

abbrev pub is_target : List Bytes → ℕ → Bytes → Bool
is_target sorted i member = hits (get_elem? sorted (i % length sorted)) member

-- The partitions of a member, from the partition number `i` on.
unfoldable pub dealt : List Bytes → ℕ → List TopicPartition → Bytes → List TopicPartition
dealt sorted i [] member = []
dealt sorted i (tp ∷ tps) member =
    let rest = dealt sorted (suc i) tps member in
    if is_target sorted i member then tp ∷ rest else rest

-- Those in one topic.
pub within_topic : Bytes → List TopicPartition → List ℤ
within_topic topic [] = []
within_topic topic (tp ∷ tps) =
    let rest = within_topic topic tps in
    if str_eq tp.topic topic then tp.partition_id ∷ rest else rest

pub topics_of : List TopicPartition → List Bytes → List PartitionAssignment
unfolding within_topic
topics_of tps [] = []
topics_of tps (topic ∷ topics) =
    let rest = topics_of tps topics in
    let parts = within_topic topic tps in
    if length parts == 0 then rest else record { topic = topic; partitions = parts } ∷ rest

-- Assign of the RoundRobinAssignor.
pub assign_round_robin : List Bytes → List TopicCount → List Assigned
unfolding all_tps topics_of
assign_round_robin members counts =
    let sorted = sort_strings members in
    let topics = sort_strings (map (λ c. c.topic) counts) in
    map
      (λ m. record {
        member = m;
        topics = topics_of (dealt sorted 0 (all_tps counts topics) m) topics;
      })
      sorted

-- "roundrobin" and "range"
abbrev round_robin_name : Bytes
round_robin_name = 114 ∷ 111 ∷ 117 ∷ 110 ∷ 100 ∷ 114 ∷ 111 ∷ 98 ∷ 105 ∷ 110 ∷ []

abbrev range_name : Bytes
range_name = 114 ∷ 97 ∷ 110 ∷ 103 ∷ 101 ∷ []

-- GetAssignor: the empty name stands for the range assignor.
pub get_assignor : Bytes → Option (List Bytes → List TopicCount → List Assigned)
unfolding assign_round_robin
get_assignor name =
    if str_eq name round_robin_name
    then some assign_round_robin
    else if str_eq name range_name
    then some assign
    else if str_eq name []
    then some assign
    else none
