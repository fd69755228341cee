-- ===== src/Coordinator/Group/Steps.antt =====
-- The steps that a group takes, in any order and at any times.
use mini_kafka.Prelude.{ℕ, zero, suc, ◌≡◌, true, List, ◌∷◌}
use mini_kafka.Protocol.Stream.{Bytes}
use mini_kafka.Protocol.Requests.JoinGroup.{JoinGroupRequest}
use mini_kafka.Protocol.Requests.SyncGroup.{SyncGroupRequest}
use mini_kafka.Protocol.Requests.Heartbeat.{HeartbeatRequest}
use mini_kafka.Protocol.Requests.LeaveGroup.{LeaveGroupRequest}
use mini_kafka.Coordinator.Group.{Group, Member, has_member, join, check_session_timeouts}
use mini_kafka.Coordinator.Group.Sync.{sync, receive, heartbeat, leave}

-- The first key of a map that is not empty is one of its keys; keys are not empty.
pub record IsPick (pick : List Member → Bytes) : Type 0 where
  pub picks : (m : Member) (ms : List Member) → has_member (pick (m ∷ ms)) (m ∷ ms) ≡ true

pub data Step : Group → Group → Type 0 where
  joins :
      (pick : List Member → Bytes) (now : ℕ) (g : Group) (req : JoinGroupRequest) (b : ℕ)
      (id : Bytes)
      → IsPick pick
      → Step g (join pick now g req (b ∷ id))
  syncs : (now : ℕ) (g : Group) (req : SyncGroupRequest) → Step g (sync now g req).0
  receives : (g : Group) (channel : ℕ) → Step g (receive g channel).0
  beats : (now : ℕ) (g : Group) (req : HeartbeatRequest) → Step g (heartbeat now g req).0
  leaves :
      (pick : List Member → Bytes) (g : Group) (req : LeaveGroupRequest)
      → IsPick pick
      → Step g (leave pick g req).0
  expires :
      (pick : List Member → Bytes) (now : ℕ) (g : Group)
      → IsPick pick
      → Step g (check_session_timeouts pick now g)

-- A run of `n` steps.
pub data Run : ℕ → Group → Group → Type 0 where
  start : {g : Group} → Run zero g g
  next : {n : ℕ} {g h k : Group} → Run n g h → Step h k → Run (suc n) g k
