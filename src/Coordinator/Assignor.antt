-- ===== src/Coordinator/Assignor.antt =====
-- internal/coordinator/assignor.go: the range assignor. The map of topics is a list of topics with
-- their numbers of partitions, and the map of members that is returned a list with one entry for
-- each member; strings are their bytes.
pub mod Order
pub mod Range
pub mod RoundRobin
use mini_kafka.Prelude.{
  ℕ, zero, suc, ◌+◌, ◌-◌, ◌*◌, ◌/◌, ◌%◌, Bool, true, false, List, [], ◌∷◌, ◌++◌, ltb, ◌==◌, str_eq,
  length, map, if◌then◌else◌,
}
use mini_kafka.Prelude.Int.{ℤ, pos, negsuc}
use mini_kafka.Protocol.Stream.{Bytes}

pub record PartitionAssignment : Type 0 where
  pub topic : Bytes
  pub partitions : List ℤ

-- A member with its MemberAssignment.
pub record Assigned : Type 0 where
  pub member : Bytes
  pub topics : List PartitionAssignment

pub record TopicCount : Type 0 where
  pub topic : Bytes
  pub partitions : ℤ

-- Go's `<=` on strings.
pub str_le : Bytes → Bytes → Bool
str_le [] t = true
str_le (a ∷ as') [] = false
str_le (a ∷ as') (b ∷ bs) =
    let rest = str_le as' bs in if ltb a b then true else if a == b then rest else false

-- sort.Strings, whose result does not depend on the algorithm.
pub insert : Bytes → List Bytes → List Bytes
unfolding str_le
insert s [] = s ∷ []
insert s (t ∷ ts) = let rest = insert s ts in if str_le s t then s ∷ t ∷ ts else t ∷ rest

pub sort_strings : List Bytes → List Bytes
unfolding insert
sort_strings [] = []
sort_strings (s ∷ ss) = insert s (sort_strings ss)

-- func min
abbrev pub min : ℕ → ℕ → ℕ
min a b = if ltb a b then a else b

-- The start and the length of the member number `i`.
abbrev pub range_start : ℕ → ℕ → ℕ → ℕ
range_start per_consumer extra i = per_consumer * i + min i extra

abbrev pub range_length : ℕ → ℕ → ℕ → ℕ
range_length per_consumer extra i = if ltb i extra then per_consumer + 1 else per_consumer

-- `for p := start; p < start+length; p++`, each number as an int32.
abbrev pub numbers : ℕ → ℕ → List ℤ
numbers start zero = []
numbers start (suc n) = pos start ∷ numbers (suc start) n

-- What the loop over the sorted members from the number `i` on appends for `member` in one topic.
pub appended : ℕ → ℕ → ℕ → List Bytes → Bytes → List ℤ
appended per_consumer extra i [] member = []
appended per_consumer extra i (m ∷ ms) member =
    let rest = appended per_consumer extra (suc i) ms member in
    if str_eq m member
    then numbers (range_start per_consumer extra i) (range_length per_consumer extra i) ++ rest
    else rest

-- memberAssignmentsMap[member][topic] behind the loops; a topic without partitions is skipped. Go
-- divides by the number of members, which is not 0.
pub range_of : List Bytes → ℤ → Bytes → List ℤ
unfolding appended
range_of sorted (negsuc k) member = []
range_of sorted (pos n) member = appended (n / length sorted) (n % length sorted) 0 sorted member

-- topicPartitions[topic]
pub count_of : Bytes → List TopicCount → ℤ
count_of topic [] = pos 0
count_of topic (t ∷ ts) = if str_eq t.topic topic then t.partitions else count_of topic ts

-- The topics of a member that have partitions, in order.
topics_of : List Bytes → List TopicCount → List Bytes → Bytes → List PartitionAssignment
unfolding range_of count_of
topics_of sorted counts [] member = []
topics_of sorted counts (topic ∷ topics) member =
    let rest = topics_of sorted counts topics member in
    let parts = range_of sorted (count_of topic counts) member in
    if length parts == 0 then rest else record { topic = topic; partitions = parts } ∷ rest

-- Assign: no members, no assignments.
pub assign : List Bytes → List TopicCount → List Assigned
unfolding topics_of sort_strings
assign members counts =
    let sorted = sort_strings members in
    let topics = sort_strings (map (λ c. c.topic) counts) in
    map (λ m. record { member = m; topics = topics_of sorted counts topics m }) sorted
