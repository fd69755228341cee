-- ===== src/Examples/Group.antt =====
-- A consumer group at concrete inputs.
use mini_kafka.Prelude.{ℕ, refl, List, [], ◌∷◌, str_eq, str_eq_iff, arith}
use mini_kafka.Prelude.Int.{pos}
use mini_kafka.Protocol.Stream.{Bytes}
use mini_kafka.Protocol.Requests.JoinGroup.{JoinGroupRequest}
use mini_kafka.Protocol.Requests.LeaveGroup.{LeaveGroupRequest}
use mini_kafka.Coordinator.Group.{
  Group, Member, stable, has_member, join, keep_members, members_left, transition_to_rebalance,
}
use mini_kafka.Coordinator.Group.Sync.{leave}
use mini_kafka.Coordinator.Group.Steps.{IsPick, joins, leaves, Run, start, next}
use mini_kafka.Coordinator.Group.Valid.{IsValid}
use mini_kafka.Coordinator.Group.Invariant.{Run-IsValid}
use mini_kafka.Coordinator.Group.Generations.{IsBetween, Run-generation}
use mini_kafka.Coordinator.Group.Fencing.{Refuses, Run-leave-Refuses}
use mini_kafka.Coordinator.Groups.{GroupCoordinator}

-- The first member of the list.
pick : List Member → Bytes
pick [] = []
pick (m ∷ ms) = m.id

pick-IsPick : IsPick pick
unfolding pick has_member
pick-IsPick = record { picks = λ m ms. rw ((str_eq_iff m.id m.id).1 refl) refl }

abbrev member : ℕ → Member
member n = record {
  id = n ∷ [];
  session_timeout_ms = pos 10000;
  last_heartbeat = 0;
  metadata = [];
  assignment = [];
  sync_resp_ch = n;
}

abbrev group : Group
group = record {
  id = 103 ∷ [];
  state = stable;
  generation_id = pos 4;
  leader_id = 1 ∷ [];
  protocol_type = [];
  protocol_name = [];
  members = member 1 ∷ member 2 ∷ [];
  next_channel = 3;
  sent = [];
}

group-IsValid : IsValid group
unfolding has_member str_eq
group-IsValid = record { distinct = (refl, (refl, tt)); led = refl; stated = λ e. cc }

abbrev join_request : JoinGroupRequest
join_request = record {
  group_id = 103 ∷ [];
  session_timeout_ms = pos 10000;
  member_id = 3 ∷ [];
  protocol_type = [];
  protocols = [];
}

abbrev leave_request : LeaveGroupRequest
leave_request = record { group_id = 103 ∷ []; member_id = 1 ∷ [] }

abbrev behind : Group
behind = (leave pick group leave_request).0

abbrev two_steps : Run 2 group (join pick 9 behind join_request (3 ∷ []))
two_steps =
    next (next start (leaves pick group leave_request pick-IsPick))
      (joins pick 9 behind join_request 3 [] pick-IsPick)

Run-IsValid_example : IsValid (join pick 9 behind join_request (3 ∷ []))
Run-IsValid_example = Run-IsValid 2 group _ two_steps group-IsValid

Run-generation_example : IsBetween 4 6 (join pick 9 behind join_request (3 ∷ []))
Run-generation_example = Run-generation 2 4 group _ two_steps refl (omega arith)

Run-leave-Refuses_example : Refuses 4 (join pick 9 behind join_request (3 ∷ []))
unfolding has_member leave keep_members members_left transition_to_rebalance str_eq
Run-leave-Refuses_example =
    Run-leave-Refuses pick group _ leave_request 4 1 refl (omega arith) refl (λ e. cc)
      (next start (joins pick 9 behind join_request 3 [] pick-IsPick))

abbrev two_groups : GroupCoordinator
two_groups = record { groups = group ∷ record group { id = 104 ∷ [] } ∷ [] }
