-- ===== src/Replication/Isr.antt =====
-- internal/replication/isr.go: the replicas of a partition, the in-sync set and the high watermark.
-- The map of replicas is a list, searched by broker id; times are nanoseconds. What the checkpoint
-- file gives to NewISRTracker is an argument.
pub mod Monotone
pub mod CaughtUp
pub mod Watermark
pub mod Sole
use mini_kafka.Prelude.{
  ℕ, ◌-◌, ◌*◌, ◌^◌, Bool, true, false, Option, none, some, List, [], ◌∷◌, ◌++◌, ◌&&◌, ◌||◌, not,
  map, ltb, if◌then◌else◌,
}
use mini_kafka.Prelude.Int.{ℤ, pos, negsuc, ltb_ℤ, leb_ℤ, ◌==ℤ◌}

pub record ReplicaState : Type 0 where
  pub broker_id : ℤ
  pub log_end_offset : ℤ
  pub last_caught_up_time : ℕ
  pub in_sync : Bool

pub record IsrTracker : Type 0 where
  pub replicas : List ReplicaState
  pub leader_id : ℤ
  pub replica_lag_time_max_ms : ℕ
  pub high_watermark : ℤ

abbrev default_lag_ms : ℕ
default_lag_ms = 30000

new_replica : ℤ → ℤ → ℕ → ReplicaState
new_replica id leo now = record {
  broker_id = id;
  log_end_offset = leo;
  last_caught_up_time = now;
  in_sync = true;
}

positive_lag : ℤ → ℕ
positive_lag (pos n) = if ltb 0 n then n else default_lag_ms
positive_lag (negsuc n) = default_lag_ms

-- The map keeps one state for each id.
insert_replica : ℤ → ℤ → ℕ → List ReplicaState → List ReplicaState
unfolding new_replica
insert_replica id leo now [] = new_replica id leo now ∷ []
insert_replica id leo now (r ∷ rs) =
    let rest = insert_replica id leo now rs in
    if r.broker_id ==ℤ id then new_replica id leo now ∷ rs else r ∷ rest

insert_all : List ℤ → ℕ → List ReplicaState → List ReplicaState
unfolding insert_replica
insert_all [] now rs = rs
insert_all (id ∷ ids) now rs = insert_all ids now (insert_replica id (pos 0) now rs)

-- NewISRTracker, with the high watermark that the checkpoint file holds for the partition, if any.
pub new_isr_tracker : ℤ → List ℤ → ℤ → ℕ → Option ℤ → IsrTracker
unfolding insert_all positive_lag
new_isr_tracker leader_id replica_ids lag_time_max_ms now checkpoint = record {
  replicas = insert_all replica_ids now [];
  leader_id = leader_id;
  replica_lag_time_max_ms = positive_lag lag_time_max_ms;
  high_watermark = elim checkpoint [ none ↦ pos 0 | some hw ↦ hw ];
}

unfoldable pub find : ℤ → List ReplicaState → Option ReplicaState
find id [] = none
find id (r ∷ rs) = if r.broker_id ==ℤ id then some r else find id rs

-- The replica's own entry: made if it is not there, and moved forward only.
pub advance : ℤ → ℤ → ℕ → List ReplicaState → List ReplicaState
unfolding new_replica
advance id leo now [] = new_replica id leo now ∷ []
advance id leo now (r ∷ rs) =
    let rest = advance id leo now rs in
    if r.broker_id ==ℤ id
    then (if ltb_ℤ r.log_end_offset leo then record r { log_end_offset = leo } ∷ rs else r ∷ rs)
    else r ∷ rest

-- The greater of the argument and the leader's own offset.
pub effective_leader_leo : ℤ → ℤ → List ReplicaState → ℤ
unfolding find
effective_leader_leo leader_id leader_leo rs = elim (find leader_id rs) [
  | none ↦ leader_leo
  | some leader ↦
      if ltb_ℤ leader_leo leader.log_end_offset then leader.log_end_offset else leader_leo
]

-- The replica counts as caught up if it has reached the leader.
pub caught_up : ℤ → ℤ → ℕ → ReplicaState → ReplicaState
caught_up id leader_leo now r =
    if r.broker_id ==ℤ id && leb_ℤ leader_leo r.log_end_offset
    then record r { last_caught_up_time = now }
    else r

-- One round of updateISRLocked. A time in the future is no lag.
pub sync_state : ℤ → ℕ → ℕ → ReplicaState → ReplicaState
sync_state leader_id max_lag now r =
    if r.broker_id ==ℤ leader_id
    then record r { in_sync = true }
    else record r { in_sync = not (ltb max_lag (now - r.last_caught_up_time)) }

-- calculateHWLocked's loop over the replicas, from the least offset so far; -1 stands for none.
lesser : ℤ → ReplicaState → ℤ
lesser least r =
    if r.in_sync && (least ==ℤ negsuc 0 || ltb_ℤ r.log_end_offset least)
    then r.log_end_offset
    else least

min_leo : ℤ → List ReplicaState → ℤ
unfolding lesser
min_leo least [] = least
min_leo least (r ∷ rs) = min_leo (lesser least r) rs

next_watermark : ℤ → List ReplicaState → ℤ
unfolding min_leo
next_watermark hw rs = let least = min_leo (negsuc 0) rs in if ltb_ℤ hw least then least else hw

-- The replicas behind an UpdateLEO.
next_replicas : IsrTracker → ℕ → ℤ → ℤ → ℤ → List ReplicaState
unfolding advance effective_leader_leo caught_up sync_state
next_replicas t now broker_id leo leader_leo =
    let rs = advance broker_id leo now t.replicas in
    let reached = effective_leader_leo t.leader_id leader_leo rs in
    map (sync_state t.leader_id (t.replica_lag_time_max_ms * 10 ^ 6) now)
      (map (caught_up broker_id reached now) rs)

-- UpdateLEO at the time `now`; it returns the new high watermark.
unfoldable pub update_leo : IsrTracker → ℕ → ℤ → ℤ → ℤ → IsrTracker × ℤ
unfolding next_replicas next_watermark
update_leo t now broker_id leo leader_leo =
    let rs = next_replicas t now broker_id leo leader_leo in
    let hw = next_watermark t.high_watermark rs in
    (record t { replicas = rs; high_watermark = hw }, hw)

-- GetISR
unfoldable pub get_isr : List ReplicaState → List ℤ
get_isr [] = []
get_isr (r ∷ rs) = let rest = get_isr rs in if r.in_sync then r.broker_id ∷ rest else rest
