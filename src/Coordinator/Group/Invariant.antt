-- ===== src/Coordinator/Group/Invariant.antt =====
-- internal/coordinator/group.go: well-formed groups under all steps.
use mini_kafka.Prelude.{
  ℕ, ◌≡◌, inl, inr, refl, ◌∙◌, true, not, ◌&&◌, Option, none, some, List, [], ◌∷◌, map, Bool-cases,
  length, ◌==◌, str_eq, arith,
}
use mini_kafka.Prelude.Int.{◌==ℤ◌}
use mini_kafka.Protocol.Stream.{Bytes}
use mini_kafka.Protocol.Requests.SyncGroup.{SyncGroupRequest, SyncGroupAssignment}
use mini_kafka.Protocol.Requests.Heartbeat.{HeartbeatRequest}
use mini_kafka.Coordinator.Group.{
  Group, GroupState, empty, preparing_rebalance, completing_rebalance, stable, Member, find_member,
  has_member, put_member,
}
use mini_kafka.Coordinator.Group.Sync.{
  assign_one, assign_all, synced, sync_member, sync, receive, beat_member, beat, heartbeat,
}
use mini_kafka.Coordinator.Group.Valid.{
  IsValid, has_member-IsLed, has_member-IsStated, not_empty, has_leader, put-IsValid, leave-IsValid,
  expire-IsValid,
}
use mini_kafka.Coordinator.Group.Joining.{join-IsValid}
use mini_kafka.Coordinator.Group.Steps.{
  Step, joins, syncs, receives, beats, leaves, expires, Run, start, next,
}
use mini_kafka.Coordinator.Group.Members.{
  HasDistinct, has_member-put_member, KeepsId, has_member-map, map-HasDistinct, find_member-id,
}

-- The member that is found is there, also with another heartbeat.
beaten-IsValid :
    (now : ℕ) (g : Group) (id : Bytes) (m : Member)
    → IsValid g
    → find_member id g.members ≡ some m
    → IsValid (record g { members = put_member (record m { last_heartbeat = now }) g.members })
beaten-IsValid now g id m v e =
    put-IsValid g (record m { last_heartbeat = now }) id v (find_member-id id g.members m e).1

beat-IsValid :
    (now : ℕ) (g : Group) (id : Bytes) (found : Option Member)
    → IsValid g
    → find_member id g.members ≡ found
    → IsValid (beat now g found).0
unfolding beat beat_member
beat-IsValid now g id none v e = v
beat-IsValid now g id (some m) v e = answer g.state
  where
    answer :
        (state : GroupState)
        → IsValid (beat_member state g (put_member (record m { last_heartbeat = now }) g.members)).0
    answer preparing_rebalance = v
    answer empty = beaten-IsValid now g id m v e
    answer completing_rebalance = beaten-IsValid now g id m v e
    answer stable = beaten-IsValid now g id m v e

heartbeat-IsValid :
    (now : ℕ) (g : Group) (req : HeartbeatRequest) → IsValid g → IsValid (heartbeat now g req).0
unfolding heartbeat
heartbeat-IsValid now g req v = elim (Bool-cases (req.generation_id ==ℤ g.generation_id)) [
  | inl current ↦ rw current (beat-IsValid now g req.member_id _ v refl)
  | inr other ↦ rw other v
]

assign_one-KeepsId : (a : SyncGroupAssignment) → KeepsId (assign_one a)
unfolding assign_one
assign_one-KeepsId a m = ground arith

assign_all-has_member :
    (as' : List SyncGroupAssignment) (id : Bytes) (ms : List Member)
    → has_member id (assign_all as' ms) ≡ has_member id ms
unfolding assign_all
assign_all-has_member [] id ms = refl
assign_all-has_member (a ∷ as') id ms =
    assign_all-has_member as' id (map (assign_one a) ms)
    ∙ has_member-map (assign_one a) (assign_one-KeepsId a) id ms

assign_all-HasDistinct :
    (as' : List SyncGroupAssignment) (ms : List Member)
    → HasDistinct ms
    → HasDistinct (assign_all as' ms)
unfolding assign_all
assign_all-HasDistinct [] ms h = h
assign_all-HasDistinct (a ∷ as') ms h =
    assign_all-HasDistinct as' _ (map-HasDistinct (assign_one a) (assign_one-KeepsId a) ms h)

synced-IsValid :
    (as' : List SyncGroupAssignment) (g : Group) (id : Bytes)
    → IsValid g
    → has_member id g.members ≡ true
    → IsValid (synced as' g)
unfolding synced
synced-IsValid as' g id v h = record {
  distinct = assign_all-HasDistinct as' g.members v.distinct;
  led = has_member-IsLed _ _ (
      assign_all-has_member as' g.leader_id g.members
      ∙ has_leader g.members g.leader_id g.state v.led v.stated
          (not_empty g.members id g.state h v.stated));
  stated = has_member-IsStated _ id stable (assign_all-has_member as' id g.members ∙ h) (λ e. cc);
}

sync_member-IsValid :
    (now : ℕ) (g : Group) (req : SyncGroupRequest) (found : Option Member)
    → IsValid g
    → find_member req.member_id g.members ≡ found
    → IsValid (sync_member now g req found).0
unfolding sync_member
sync_member-IsValid now g req none v e = v
sync_member-IsValid now g req (some m) v e =
    elim (Bool-cases (str_eq req.member_id g.leader_id && not (length req.assignments == 0))) [
      | inl leads ↦ rw leads (synced-IsValid req.assignments _ req.member_id beaten there)
      | inr follows ↦ rw follows beaten
    ]
  where
    beaten :
        IsValid (record g { members = put_member (record m { last_heartbeat = now }) g.members })
    beaten = beaten-IsValid now g req.member_id m v e

    there :
        has_member req.member_id (put_member (record m { last_heartbeat = now }) g.members) ≡ true
    there =
        has_member-put_member req.member_id (record m { last_heartbeat = now }) g.members
        ∙ rw (find_member-id req.member_id g.members m e).1 (ground arith)

sync-IsValid :
    (now : ℕ) (g : Group) (req : SyncGroupRequest) → IsValid g → IsValid (sync now g req).0
unfolding sync
sync-IsValid now g req v = elim (Bool-cases (req.generation_id ==ℤ g.generation_id)) [
  | inl current ↦ rw current (sync_member-IsValid now g req _ v refl)
  | inr other ↦ rw other v
]

receive-IsValid : (g : Group) (channel : ℕ) → IsValid g → IsValid (receive g channel).0
unfolding receive
receive-IsValid g channel v = record { distinct = v.distinct; led = v.led; stated = v.stated }

Step-IsValid : (g h : Group) → Step g h → IsValid g → IsValid h
Step-IsValid _ _ (joins pick now g req b id p) v = join-IsValid pick now g req (b ∷ id) p v
Step-IsValid _ _ (syncs now g req) v = sync-IsValid now g req v
Step-IsValid _ _ (receives g channel) v = receive-IsValid g channel v
Step-IsValid _ _ (beats now g req) v = heartbeat-IsValid now g req v
Step-IsValid _ _ (leaves pick g req p) v = leave-IsValid pick g req p v
Step-IsValid _ _ (expires pick now g p) v = expire-IsValid pick now g p v

-- Any run of a group, by joins, syncs, ends of waits, heartbeats, leaves and session timeouts,
-- keeps it well formed: no member id stands twice, the leader is one of the members, and the state
-- is empty, without a leader, exactly if there are no members.
pub Run-IsValid : (n : ℕ) (g h : Group) → Run n g h → IsValid g → IsValid h
Run-IsValid _ g _ start v = v
Run-IsValid _ g k (next run step) v = Step-IsValid _ k step (Run-IsValid _ g _ run v)
