-- ===== src/Coordinator/Group/Valid.antt =====
-- internal/coordinator/group.go: what a well-formed group is; leaving and time-outs.
use mini_kafka.Prelude.{
  ℕ, ◌≡◌, ◌≢◌, inl, inr, refl, ◌∙◌, true, List, [], ◌∷◌, map, Bool-cases, length, ◌==◌, str_eq_iff,
  arith,
}
use mini_kafka.Protocol.Stream.{Bytes}
use mini_kafka.Protocol.Requests.LeaveGroup.{LeaveGroupRequest}
use mini_kafka.Coordinator.Group.{
  Group, GroupState, empty, preparing_rebalance, Member, has_member, put_member, keep_members,
  first_leader, clear_assignment, transition_to_rebalance, members_left, is_alive,
  check_session_timeouts,
}
use mini_kafka.Coordinator.Group.Sync.{leave}
use mini_kafka.Coordinator.Group.Steps.{IsPick}
use mini_kafka.Coordinator.Group.Members.{
  HasDistinct, has_member-put_member, put_member-HasDistinct, KeepsId, has_member-map,
  map-HasDistinct, keep_members-HasDistinct,
}

-- The leader is a member; without members there is none.
abbrev pub IsLed : List Member → Bytes → Type 0
IsLed [] leader = leader ≡ []
IsLed (m ∷ ms) leader = has_member leader (m ∷ ms) ≡ true

-- Just the group without members is empty.
abbrev pub IsStated : List Member → GroupState → Type 0
IsStated [] state = state ≡ empty
IsStated (m ∷ ms) state = state ≢ empty

pub record IsValid (g : Group) : Type 0 where
  pub distinct : HasDistinct g.members
  pub led : IsLed g.members g.leader_id
  pub stated : IsStated g.members g.state

-- A list that has some member is not empty.
pub has_member-IsLed :
    (ms : List Member) (leader : Bytes) → has_member leader ms ≡ true → IsLed ms leader
unfolding has_member
has_member-IsLed [] leader h = cc
has_member-IsLed (m ∷ ms) leader h = h

pub has_member-IsStated :
    (ms : List Member) (id : Bytes) (state : GroupState)
    → has_member id ms ≡ true
    → state ≢ empty
    → IsStated ms state
unfolding has_member
has_member-IsStated [] id state h n = cc
has_member-IsStated (m ∷ ms) id state h n = n

pub not_empty :
    (ms : List Member) (id : Bytes) (state : GroupState)
    → has_member id ms ≡ true
    → IsStated ms state
    → state ≢ empty
unfolding has_member
not_empty [] id state h s = cc
not_empty (m ∷ ms) id state h s = s

-- A group that is not empty has its leader among the members.
pub has_leader :
    (ms : List Member) (leader : Bytes) (state : GroupState)
    → IsLed ms leader
    → IsStated ms state
    → state ≢ empty
    → has_member leader ms ≡ true
has_leader [] leader state l s n = absurd (n s)
has_leader (m ∷ ms) leader state l s n = l

pub same_id : KeepsId clear_assignment
unfolding clear_assignment
same_id m = refl

first_leader-IsLed :
    (pick : List Member → Bytes) (ms : List Member) → IsPick pick → IsLed ms (first_leader pick ms)
unfolding first_leader
first_leader-IsLed pick [] p = refl
first_leader-IsLed pick (m ∷ ms) p = p.picks m ms

pub transition-IsValid :
    (pick : List Member → Bytes) (g : Group) (id : Bytes)
    → IsPick pick
    → HasDistinct g.members
    → has_member id g.members ≡ true
    → IsValid (transition_to_rebalance pick g)
unfolding transition_to_rebalance
transition-IsValid pick g id p d h = record {
  distinct = map-HasDistinct clear_assignment same_id g.members d;
  led = first_leader-IsLed pick (map clear_assignment g.members) p;
  stated =
      has_member-IsStated _ id preparing_rebalance
        (has_member-map clear_assignment same_id id g.members ∙ h) (λ e. cc);
}

members_left-IsValid :
    (pick : List Member → Bytes) (g : Group) (left : List Member)
    → IsPick pick
    → HasDistinct left
    → IsValid (members_left pick g left)
unfolding members_left has_member
members_left-IsValid pick g [] p d = record { distinct = tt; led = refl; stated = refl }
members_left-IsValid pick g (m ∷ ms) p d =
    transition-IsValid pick (record g { members = m ∷ ms }) m.id p d
      (rw ((str_eq_iff m.id m.id).1 refl) refl)

-- A change of one member that is there, or of none, in a group that is not empty.
pub put-IsValid :
    (g : Group) (m : Member) (id : Bytes)
    → IsValid g
    → has_member id g.members ≡ true
    → IsValid (record g { members = put_member m g.members })
put-IsValid g m id v h = record {
  distinct = put_member-HasDistinct m g.members v.distinct;
  led =
      has_member-IsLed _ _
        (has_member-put_member g.leader_id m g.members ∙ rw leader (ground arith));
  stated =
      has_member-IsStated _ id g.state (has_member-put_member id m g.members ∙ rw h (ground arith))
        n;
}
  where
    n : g.state ≢ empty
    n = not_empty g.members id g.state h v.stated

    leader : has_member g.leader_id g.members ≡ true
    leader = has_leader g.members g.leader_id g.state v.led v.stated n

pub leave-IsValid :
    (pick : List Member → Bytes) (g : Group) (req : LeaveGroupRequest)
    → IsPick pick
    → IsValid g
    → IsValid (leave pick g req).0
unfolding leave
leave-IsValid pick g req p v = elim (Bool-cases (has_member req.member_id g.members)) [
  | inl there ↦
      rw there (members_left-IsValid pick g _ p (keep_members-HasDistinct _ g.members v.distinct))
  | inr absent ↦ rw absent v
]

pub expire-IsValid :
    (pick : List Member → Bytes) (now : ℕ) (g : Group)
    → IsPick pick
    → IsValid g
    → IsValid (check_session_timeouts pick now g)
unfolding check_session_timeouts
expire-IsValid pick now g p v =
    elim (Bool-cases (length (keep_members (is_alive now) g.members) == length g.members)) [
      | inl all_alive ↦ rw all_alive v
      | inr some_gone ↦
          rw some_gone
            (members_left-IsValid pick g _ p (keep_members-HasDistinct _ g.members v.distinct))
    ]
