-- ===== src/Coordinator/Group/Sync.antt =====
-- internal/coordinator/group.go: SyncGroup with its wait, Heartbeat and LeaveGroup.
use mini_kafka.Prelude.{
  ℕ, Bool, false, not, ◌&&◌, ◌||◌, Option, none, some, List, [], ◌∷◌, map, ◌==◌, length, str_eq,
  if◌then◌else◌,
}
use mini_kafka.Prelude.Int.{ℤ, ◌==ℤ◌}
use mini_kafka.Protocol.Stream.{Bytes}
use mini_kafka.Protocol.Requests.SyncGroup.{SyncGroupRequest, SyncGroupAssignment}
use mini_kafka.Protocol.Requests.Heartbeat.{HeartbeatRequest}
use mini_kafka.Protocol.Requests.LeaveGroup.{LeaveGroupRequest}
use mini_kafka.Protocol.Responses.SyncGroup.{SyncGroupResponse}
use mini_kafka.Coordinator.Group.{
  Group, Member, Sent, GroupState, empty, preparing_rebalance, completing_rebalance, stable,
  err_none, err_request_timed_out, err_unknown_member_id, err_rebalance_in_progress,
  err_illegal_generation, find_member, has_member, put_member, keep_members, members_left,
}

-- SyncGroup answers at once, or waits on a channel.
pub data SyncOutcome : Type 0 where
  answered : SyncGroupResponse → SyncOutcome
  waits : ℕ → SyncOutcome

abbrev pub refused : ℤ → SyncOutcome
refused code = answered (record { error_code = code; assignment = [] })

-- The loop over the leader's assignments: those for members are stored.
unfoldable pub assign_one : SyncGroupAssignment → Member → Member
assign_one a m = if str_eq m.id a.member_id then record m { assignment = a.assignment } else m

unfoldable pub assign_all : List SyncGroupAssignment → List Member → List Member
unfolding assign_one
assign_all [] ms = ms
assign_all (a ∷ as') ms = assign_all as' (map (assign_one a) ms)

unfoldable pub has_answer : ℕ → List Sent → Bool
has_answer ch [] = false
has_answer ch (s ∷ ss) = s.channel == ch || has_answer ch ss

-- A send that is dropped if the buffer is full.
unfoldable pub notify : Member → List Sent → List Sent
unfolding has_answer
notify m sent =
    if has_answer m.sync_resp_ch sent
    then sent
    else record {
      channel = m.sync_resp_ch;
      response = record { error_code = err_none; assignment = m.assignment };
    }
      ∷ sent

unfoldable pub notify_all : List Member → List Sent → List Sent
unfolding notify
notify_all [] sent = sent
notify_all (m ∷ ms) sent = notify_all ms (notify m sent)

-- The leader's assignments make the group stable, and every member is notified.
unfoldable pub synced : List SyncGroupAssignment → Group → Group
unfolding assign_all notify_all
synced assignments g =
    let members = assign_all assignments g.members in
    record g { state = stable; members = members; sent = notify_all members g.sent }

unfoldable pub sync_member : ℕ → Group → SyncGroupRequest → Option Member → Group × SyncOutcome
unfolding synced put_member
sync_member now g req none = (g, refused err_unknown_member_id)
sync_member now g req (some m) =
    let g' = record g { members = put_member (record m { last_heartbeat = now }) g.members } in
    (
      if str_eq req.member_id g.leader_id && not (length req.assignments == 0)
          then synced req.assignments g'
          else g',
      waits m.sync_resp_ch,
    )

-- SyncGroup up to the wait, for a group
unfoldable pub sync : ℕ → Group → SyncGroupRequest → Group × SyncOutcome
unfolding sync_member
sync now g req =
    if req.generation_id ==ℤ g.generation_id
    then sync_member now g req (find_member req.member_id g.members)
    else (g, refused err_illegal_generation)

-- The answer in a channel's buffer, and what is left in the buffers.
unfoldable pub take_sent : ℕ → List Sent → Option SyncGroupResponse × List Sent
take_sent ch [] = (none, [])
take_sent ch (s ∷ ss) =
    let (found, left) = take_sent ch ss in
    if s.channel == ch then (some s.response, ss) else (found, s ∷ left)

-- The end of the wait: the answer is received, or time has run out.
unfoldable pub receive : Group → ℕ → Group × SyncGroupResponse
unfolding take_sent
receive g ch =
    let (found, left) = take_sent ch g.sent in
    (
      record g { sent = left },
      elim found [
        | none ↦ record { error_code = err_request_timed_out; assignment = [] }
        | some response ↦ response
      ],
    )

-- A member that is there learns of a rebalance, or its heartbeat counts.
unfoldable pub beat_member : GroupState → Group → List Member → Group × ℤ
beat_member preparing_rebalance g members = (g, err_rebalance_in_progress)
beat_member empty g members = (record g { members = members }, err_none)
beat_member completing_rebalance g members = (record g { members = members }, err_none)
beat_member stable g members = (record g { members = members }, err_none)

unfoldable pub beat : ℕ → Group → Option Member → Group × ℤ
unfolding put_member beat_member
beat now g none = (g, err_unknown_member_id)
beat now g (some m) =
    beat_member g.state g (put_member (record m { last_heartbeat = now }) g.members)

-- Heartbeat, for a group, with the error code
unfoldable pub heartbeat : ℕ → Group → HeartbeatRequest → Group × ℤ
unfolding beat
heartbeat now g req =
    if req.generation_id ==ℤ g.generation_id
    then beat now g (find_member req.member_id g.members)
    else (g, err_illegal_generation)

-- LeaveGroup, for a group, with the error code
unfoldable pub leave : (List Member → Bytes) → Group → LeaveGroupRequest → Group × ℤ
unfolding keep_members members_left
leave pick g req =
    if has_member req.member_id g.members
    then (
      members_left pick g (keep_members (λ m. not (str_eq m.id req.member_id)) g.members),
      err_none,
    )
    else (g, err_unknown_member_id)
