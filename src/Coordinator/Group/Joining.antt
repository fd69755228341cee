-- ===== src/Coordinator/Group/Joining.antt =====
-- What a JoinGroup leaves of a well-formed group.
use mini_kafka.Prelude.{
  ℕ, ◌≡◌, ◌≢◌, inl, inr, refl, ◌∙◌, true, false, Option, none, some, List, Bool-cases, length, ◌==◌,
  str_eq_iff, arith, if◌then◌else◌,
}
use mini_kafka.Protocol.Stream.{Bytes}
use mini_kafka.Protocol.Requests.JoinGroup.{JoinGroupRequest}
use mini_kafka.Coordinator.Group.{
  Group, GroupState, empty, preparing_rebalance, completing_rebalance, stable, Member, find_member,
  has_member, clear_assignment, transition_to_rebalance, joined, starts_rebalance, with_joined,
  with_leader, join,
}
use mini_kafka.Coordinator.Group.Valid.{
  IsValid, has_member-IsLed, has_member-IsStated, not_empty, has_leader, transition-IsValid,
  same_id,
}
use mini_kafka.Coordinator.Group.Steps.{IsPick}
use mini_kafka.Coordinator.Group.Members.{
  HasDistinct, has_member-put_member, put_member-HasDistinct, has_member-map, find_member-id,
}

-- A leader that is empty is replaced by the member.
leading-IsValid :
    (g : Group) (id : Bytes)
    → has_member id g.members ≡ true
    → IsValid g
    → IsValid (with_leader id g)
unfolding with_leader
leading-IsValid g id h v = record {
  distinct = v.distinct;
  led = has_member-IsLed g.members _ leader;
  stated = v.stated;
}
  where
    leader : has_member (if length g.leader_id == 0 then id else g.leader_id) g.members ≡ true
    leader = elim (Bool-cases (length g.leader_id == 0)) [
      | inl none_yet ↦ rw none_yet h
      | inr some_leader ↦ rw some_leader (
          has_leader g.members g.leader_id g.state v.led v.stated
            (not_empty g.members id g.state h v.stated))
    ]

joined_id :
    (now : ℕ) (req : JoinGroupRequest) (id : Bytes) (channel : ℕ) (ms : List Member)
    (found : Option Member)
    → find_member id ms ≡ found
    → (joined now req id channel found).id ≡ id
unfolding joined
joined_id now req id channel ms none e = refl
joined_id now req id channel ms (some m) e = (find_member-id id ms m e).0

joined-there :
    (now : ℕ) (g : Group) (req : JoinGroupRequest) (id : Bytes)
    → has_member id (with_joined g now req id).members ≡ true
unfolding with_joined
joined-there now g req id =
    has_member-put_member id (joined now req id g.next_channel (find_member id g.members)) g.members
    ∙ rw (joined_id now req id g.next_channel g.members _ refl, (str_eq_iff id id).1 refl) refl

not_started : (state : GroupState) → starts_rebalance state ≡ false → state ≢ empty
unfolding starts_rebalance
not_started stable e = λ n. cc
not_started empty e = λ n. cc
not_started preparing_rebalance e = λ n. cc
not_started completing_rebalance e = λ n. cc

joined-HasDistinct :
    (now : ℕ) (g : Group) (req : JoinGroupRequest) (id : Bytes)
    → HasDistinct g.members
    → HasDistinct (with_joined g now req id).members
unfolding with_joined
joined-HasDistinct now g req id d = put_member-HasDistinct _ g.members d

-- A member enters a group that is not empty, without a new rebalance.
with_joined-IsValid :
    (now : ℕ) (g : Group) (req : JoinGroupRequest) (id : Bytes)
    → IsValid g
    → g.state ≢ empty
    → IsValid (with_joined g now req id)
unfolding with_joined
with_joined-IsValid now g req id v n = record {
  distinct = put_member-HasDistinct _ g.members v.distinct;
  led = has_member-IsLed _ g.leader_id (
      has_member-put_member g.leader_id _ g.members
      ∙ rw (has_leader g.members g.leader_id g.state v.led v.stated n) (ground arith));
  stated = has_member-IsStated _ id g.state (joined-there now g req id) n;
}

-- A well-formed group that the member is in.
Entered : Bytes → Group → Type 0
Entered id g = IsValid g × (has_member id g.members ≡ true)

transition-Entered :
    (pick : List Member → Bytes) (g : Group) (id : Bytes)
    → IsPick pick
    → HasDistinct g.members
    → has_member id g.members ≡ true
    → Entered id (transition_to_rebalance pick g)
unfolding transition_to_rebalance Entered
transition-Entered pick g id p d h =
    (transition-IsValid pick g id p d h, has_member-map clear_assignment same_id id g.members ∙ h)

pub join-IsValid :
    (pick : List Member → Bytes) (now : ℕ) (g : Group) (req : JoinGroupRequest) (id : Bytes)
    → IsPick pick
    → IsValid g
    → IsValid (join pick now g req id)
unfolding join Entered
join-IsValid pick now g req id p v = leading-IsValid _ id entered.1 entered.0
  where
    entered : Entered id (
        if starts_rebalance g.state
        then transition_to_rebalance pick (with_joined g now req id)
        else with_joined g now req id)
    entered = elim (Bool-cases (starts_rebalance g.state)) [
      | inl starts ↦ rw starts (
          transition-Entered pick (with_joined g now req id) id p
            (joined-HasDistinct now g req id v.distinct) (joined-there now g req id))
      | inr goes_on ↦ rw goes_on (
        with_joined-IsValid now g req id v (not_started g.state goes_on),
        joined-there now g req id,
      )
    ]

pub join-id :
    (pick : List Member → Bytes) (now : ℕ) (g : Group) (req : JoinGroupRequest) (id : Bytes)
    → (join pick now g req id).id ≡ g.id
unfolding join with_leader transition_to_rebalance with_joined
join-id pick now g req id = elim (Bool-cases (starts_rebalance g.state)) [
  | inl starts ↦ rw starts refl
  | inr goes_on ↦ rw goes_on refl
]
