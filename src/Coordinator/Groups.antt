-- ===== src/Coordinator/Groups.antt =====
-- internal/coordinator/group.go: the coordinator's map of groups, a list that is searched by id, and
-- the requests as they find their group. `hex` is the text that hex.EncodeToString gives of the
-- eight random bytes for a new member's id. The wait of a SyncGroup is a step of its own.
pub mod Routing
use mini_kafka.Prelude.{
  ℕ, Bool, Option, none, some, List, [], ◌∷◌, ◌++◌, map, ◌==◌, length, str_eq, if◌then◌else◌,
}
use mini_kafka.Prelude.Int.{ℤ, pos}
use mini_kafka.Protocol.Stream.{Bytes}
use mini_kafka.Protocol.Requests.JoinGroup.{JoinGroupRequest}
use mini_kafka.Protocol.Requests.SyncGroup.{SyncGroupRequest}
use mini_kafka.Protocol.Requests.Heartbeat.{HeartbeatRequest}
use mini_kafka.Protocol.Requests.LeaveGroup.{LeaveGroupRequest}
use mini_kafka.Protocol.Responses.JoinGroup.{JoinGroupResponse}
use mini_kafka.Coordinator.Group.{
  Group, Member, empty, err_unknown_member_id, err_invalid_group_id, join, join_response,
  check_session_timeouts,
}
use mini_kafka.Coordinator.Group.Sync.{SyncOutcome, refused, sync, heartbeat, leave}

pub record GroupCoordinator : Type 0 where
  pub groups : List Group

-- gc.groups[id]
unfoldable pub find_group : Bytes → List Group → Option Group
find_group id [] = none
find_group id (g ∷ gs) = if str_eq g.id id then some g else find_group id gs

-- gc.groups[g.ID] = g, or the change of the group that is there.
pub put_group : Group → List Group → List Group
put_group g [] = g ∷ []
put_group g (other ∷ gs) =
    let rest = put_group g gs in if str_eq other.id g.id then g ∷ gs else other ∷ rest

-- The group of a JoinGroup, made if it is not there.
pub joined_group : JoinGroupRequest → Option Group → Group
joined_group req (some g) = g
joined_group req none = record {
  id = req.group_id;
  state = empty;
  generation_id = pos 0;
  leader_id = [];
  protocol_type = req.protocol_type;
  protocol_name = [];
  members = [];
  next_channel = 0;
  sent = [];
}

pub generate_member_id : Bytes → Bytes → Bytes
generate_member_id client_id hex = client_id ++ 45 ∷ hex

pub member_id_of : JoinGroupRequest → Bytes → Bytes → Bytes
unfolding generate_member_id
member_id_of req client_id hex =
    if length req.member_id == 0 then generate_member_id client_id hex else req.member_id

abbrev invalid_group : JoinGroupResponse
invalid_group = record {
  error_code = err_invalid_group_id;
  generation_id = pos 0;
  protocol_name = [];
  leader_id = [];
  member_id = [];
  members = [];
}

-- JoinGroup
pub join_group :
    (List Member → Bytes)
    → ℕ
    → GroupCoordinator
    → JoinGroupRequest
    → Bytes
    → Bytes
    → GroupCoordinator × JoinGroupResponse
unfolding find_group put_group joined_group member_id_of
join_group pick now gc req client_id hex =
    let member_id = member_id_of req client_id hex in
    let g = join pick now (joined_group req (find_group req.group_id gc.groups)) req member_id in
    if length req.group_id == 0
    then (gc, invalid_group)
    else (record gc { groups = put_group g gc.groups }, join_response g member_id)

-- A request to the group of an id, or the answer where there is none.
pub at_group :
    {A : Type 0} → GroupCoordinator → (Group → Group × A) → A → Option Group → GroupCoordinator × A
at_group gc act unknown none = (gc, unknown)
at_group gc act unknown (some g) = (record gc { groups = put_group (act g).0 gc.groups }, (act g).1)

-- SyncGroup, up to its wait
pub sync_group : ℕ → GroupCoordinator → SyncGroupRequest → GroupCoordinator × SyncOutcome
unfolding at_group
sync_group now gc req =
    at_group gc (λ g. sync now g req) (refused err_unknown_member_id)
      (find_group req.group_id gc.groups)

-- Heartbeat, with the error code
pub group_heartbeat : ℕ → GroupCoordinator → HeartbeatRequest → GroupCoordinator × ℤ
unfolding at_group
group_heartbeat now gc req =
    at_group gc (λ g. heartbeat now g req) err_unknown_member_id (find_group req.group_id gc.groups)

-- LeaveGroup, with the error code
pub leave_group :
    (List Member → Bytes) → GroupCoordinator → LeaveGroupRequest → GroupCoordinator × ℤ
unfolding at_group
leave_group pick gc req =
    at_group gc (λ g. leave pick g req) err_unknown_member_id (find_group req.group_id gc.groups)

-- checkSessionTimeouts, for all groups at one time
pub check_all_timeouts : (List Member → Bytes) → ℕ → GroupCoordinator → GroupCoordinator
check_all_timeouts pick now gc = record gc {
  groups = map (check_session_timeouts pick now) gc.groups;
}
