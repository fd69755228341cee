-- ===== src/Coordinator/Group.antt =====
-- internal/coordinator/group.go: a consumer group, its rebalances and JoinGroup. The map of members is a list,
-- searched by id; what the code takes from the order of Go's maps, the first key, is the argument
-- `pick`. A channel for the answer of a SyncGroup is a number, and `sent` has the answers that lie
-- in a channel's buffer of one place. Times are nanoseconds. The channel joinRespCh is made and
-- never used, and is left out.
pub mod Sync
pub mod Steps
pub mod Members
pub mod Valid
pub mod Joining
pub mod Invariant
pub mod Generations
pub mod Fencing
use mini_kafka.Prelude.{
  ℕ, suc, ◌+◌, ◌-◌, ◌*◌, ◌^◌, Bool, true, false, not, ◌&&◌, ◌||◌, Option, none, some, List, [], ◌∷◌,
  ◌++◌, map, ltb, ◌==◌, length, str_eq, if◌then◌else◌,
}
use mini_kafka.Prelude.Int.{ℤ, pos, negsuc, ◌==ℤ◌, add_wrapped}
use mini_kafka.Protocol.Stream.{Bytes}
use mini_kafka.Protocol.Requests.JoinGroup.{JoinGroupRequest, JoinGroupProtocol}
use mini_kafka.Protocol.Responses.JoinGroup.{JoinGroupResponse, JoinGroupMember}
use mini_kafka.Protocol.Responses.SyncGroup.{SyncGroupResponse}

pub data GroupState : Type 0 where
  empty preparing_rebalance completing_rebalance stable : GroupState

pub record Member : Type 0 where
  pub id : Bytes
  pub session_timeout_ms : ℤ
  pub last_heartbeat : ℕ
  pub metadata : Bytes
  pub assignment : Bytes
  pub sync_resp_ch : ℕ

-- An answer in the buffer of a channel.
pub record Sent : Type 0 where
  pub channel : ℕ
  pub response : SyncGroupResponse

pub record Group : Type 0 where
  pub id : Bytes
  pub state : GroupState
  pub generation_id : ℤ
  pub leader_id : Bytes
  pub protocol_type : Bytes
  pub protocol_name : Bytes
  pub members : List Member
  pub next_channel : ℕ
  pub sent : List Sent

-- The error codes of internal/server/handler.go that the coordinator answers with.
abbrev pub err_none : ℤ
err_none = pos 0

abbrev pub err_request_timed_out : ℤ
err_request_timed_out = pos 6

abbrev pub err_unknown_member_id : ℤ
err_unknown_member_id = pos 9

abbrev pub err_rebalance_in_progress : ℤ
err_rebalance_in_progress = pos 10

abbrev pub err_illegal_generation : ℤ
err_illegal_generation = pos 11

abbrev pub err_invalid_group_id : ℤ
err_invalid_group_id = pos 12

-- g.Members[id]
unfoldable pub find_member : Bytes → List Member → Option Member
find_member id [] = none
find_member id (m ∷ ms) = if str_eq m.id id then some m else find_member id ms

-- Whether the key is there.
unfoldable pub has_member : Bytes → List Member → Bool
has_member id [] = false
has_member id (m ∷ ms) = str_eq m.id id || has_member id ms

-- g.Members[m.id] = m
pub put_member : Member → List Member → List Member
put_member m [] = m ∷ []
put_member m (other ∷ ms) =
    let rest = put_member m ms in if str_eq other.id m.id then m ∷ ms else other ∷ rest

-- The members that pass a test, the others being deleted.
unfoldable pub keep_members : (Member → Bool) → List Member → List Member
keep_members test [] = []
keep_members test (m ∷ ms) = let rest = keep_members test ms in if test m then m ∷ rest else rest

-- The loop of transitionToRebalanceLocked over the map, which takes the first key.
pub first_leader : (List Member → Bytes) → List Member → Bytes
first_leader pick [] = []
first_leader pick (m ∷ ms) = pick (m ∷ ms)

-- AssignmentCleared, for a member
pub clear_assignment : Member → Member
clear_assignment m = record m { assignment = [] }

-- transitionToRebalanceLocked; the generation is an int32.
unfoldable pub transition_to_rebalance : (List Member → Bytes) → Group → Group
unfolding first_leader clear_assignment
transition_to_rebalance pick g =
    let members = map clear_assignment g.members in
    record g {
      state = preparing_rebalance;
      generation_id = add_wrapped (2 ^ 31) g.generation_id 1;
      leader_id = first_leader pick members;
      members = members;
    }

-- Behind the deletion of members, of which `left` are left.
unfoldable pub members_left : (List Member → Bytes) → Group → List Member → Group
unfolding transition_to_rebalance
members_left pick g [] = record g { state = empty; leader_id = []; members = [] }
members_left pick g (m ∷ ms) = transition_to_rebalance pick (record g { members = m ∷ ms })

-- A member's timeout: 45 seconds unless it is positive.
timeout_of : ℤ → ℕ
timeout_of (pos n) = if n == 0 then 45 * 10 ^ 9 else n * 10 ^ 6
timeout_of (negsuc n) = 45 * 10 ^ 9

pub is_alive : ℕ → Member → Bool
unfolding timeout_of
is_alive now m = not (ltb (timeout_of m.session_timeout_ms) (now - m.last_heartbeat))

-- checkSessionTimeouts, for a group
pub check_session_timeouts : (List Member → Bytes) → ℕ → Group → Group
unfolding keep_members members_left is_alive
check_session_timeouts pick now g =
    let left = keep_members (is_alive now) g.members in
    if length left == length g.members then g else members_left pick g left

-- The name and the metadata of the first protocol.
abbrev first_protocol : List JoinGroupProtocol → JoinGroupProtocol
first_protocol [] = record { name = []; metadata = [] }
first_protocol (p ∷ ps) = p

-- The member behind a JoinGroup: a new one, or the old one with its assignment.
joined : ℕ → JoinGroupRequest → Bytes → ℕ → Option Member → Member
joined now req member_id channel none = record {
  id = member_id;
  session_timeout_ms = req.session_timeout_ms;
  last_heartbeat = now;
  metadata = (first_protocol req.protocols).metadata;
  assignment = [];
  sync_resp_ch = channel;
}
joined now req member_id channel (some m) = record m {
  session_timeout_ms = req.session_timeout_ms;
  last_heartbeat = now;
  metadata = (first_protocol req.protocols).metadata;
  sync_resp_ch = channel;
}

-- A stable or empty group begins a rebalance.
starts_rebalance : GroupState → Bool
starts_rebalance stable = true
starts_rebalance empty = true
starts_rebalance preparing_rebalance = false
starts_rebalance completing_rebalance = false

pub with_joined : Group → ℕ → JoinGroupRequest → Bytes → Group
unfolding joined put_member
with_joined g now req member_id = record g {
  protocol_name = (first_protocol req.protocols).name;
  members =
      put_member (joined now req member_id g.next_channel (find_member member_id g.members))
        g.members;
  next_channel = g.next_channel + 1;
}

-- A group without a leader takes the member.
pub with_leader : Bytes → Group → Group
with_leader member_id g = record g {
  leader_id = if length g.leader_id == 0 then member_id else g.leader_id;
}

-- The group behind a JoinGroup of the member `member_id`.
pub join : (List Member → Bytes) → ℕ → Group → JoinGroupRequest → Bytes → Group
unfolding with_joined starts_rebalance transition_to_rebalance with_leader
join pick now g req member_id =
    let g' = with_joined g now req member_id in
    with_leader member_id (if starts_rebalance g.state then transition_to_rebalance pick g' else g')

-- What the member is told; the leader is told all members.
pub join_response : Group → Bytes → JoinGroupResponse
join_response g member_id = record {
  error_code = err_none;
  generation_id = g.generation_id;
  protocol_name = g.protocol_name;
  leader_id = g.leader_id;
  member_id = member_id;
  members =
      if str_eq member_id g.leader_id
      then map (λ m. record { member_id = m.id; metadata = m.metadata }) g.members
      else [];
}
