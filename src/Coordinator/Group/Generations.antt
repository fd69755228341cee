-- ===== src/Coordinator/Group/Generations.antt =====
-- internal/coordinator/group.go: the generation of a group under its steps.
use mini_kafka.Prelude.{
  ℕ, ◌≡◌, ◌⊎◌, inl, inr, refl, ap, ◌∙◌, ◌+◌, ◌^◌, ◌<◌, ◌≤◌, not, ◌&&◌, Option, none, some, List, [],
  ◌∷◌, Bool-cases, length, ◌==◌, str_eq, arith,
}
use mathlib.Core.Path.{subst}
use mini_kafka.Prelude.Int.{ℤ, pos, ◌==ℤ◌, add_wrapped, add_wrapped-pos}
use mini_kafka.Protocol.Stream.{Bytes}
use mini_kafka.Protocol.Requests.JoinGroup.{JoinGroupRequest}
use mini_kafka.Protocol.Requests.SyncGroup.{SyncGroupRequest}
use mini_kafka.Protocol.Requests.Heartbeat.{HeartbeatRequest}
use mini_kafka.Protocol.Requests.LeaveGroup.{LeaveGroupRequest}
use mini_kafka.Coordinator.Group.{
  Group, GroupState, empty, preparing_rebalance, completing_rebalance, stable, Member, has_member,
  put_member, keep_members, transition_to_rebalance, members_left, is_alive, check_session_timeouts,
  starts_rebalance, with_joined, with_leader, join,
}
use mini_kafka.Coordinator.Group.Sync.{
  synced, sync_member, sync, receive, beat_member, beat, heartbeat, leave,
}
use mini_kafka.Coordinator.Group.Steps.{
  Step, joins, syncs, receives, beats, leaves, expires, Run, start, next,
}

-- The next generation of an int32.
abbrev bumped : ℤ → ℤ
bumped generation = add_wrapped (2 ^ 31) generation 1

-- A step keeps the generation, or takes the next.
pub KeepsOrBumps : Group → Group → Type 0
KeepsOrBumps g h = (h.generation_id ≡ g.generation_id) ⊎ (h.generation_id ≡ bumped g.generation_id)

members_left-KeepsOrBumps :
    (pick : List Member → Bytes) (g : Group) (left : List Member)
    → KeepsOrBumps g (members_left pick g left)
unfolding members_left transition_to_rebalance KeepsOrBumps
members_left-KeepsOrBumps pick g [] = inl refl
members_left-KeepsOrBumps pick g (m ∷ ms) = inr refl

join-KeepsOrBumps :
    (pick : List Member → Bytes) (now : ℕ) (g : Group) (req : JoinGroupRequest) (id : Bytes)
    → KeepsOrBumps g (join pick now g req id)
unfolding join with_leader transition_to_rebalance with_joined KeepsOrBumps
join-KeepsOrBumps pick now g req id = elim (Bool-cases (starts_rebalance g.state)) [
  | inl starts ↦ rw starts (inr refl)
  | inr goes_on ↦ rw goes_on (inl refl)
]

sync_member-keeps :
    (now : ℕ) (g : Group) (req : SyncGroupRequest) (found : Option Member)
    → (sync_member now g req found).0.generation_id ≡ g.generation_id
unfolding sync_member synced
sync_member-keeps now g req none = refl
sync_member-keeps now g req (some m) =
    elim (Bool-cases (str_eq req.member_id g.leader_id && not (length req.assignments == 0))) [
      | inl leads ↦ rw leads refl
      | inr follows ↦ rw follows refl
    ]

sync-keeps :
    (now : ℕ) (g : Group) (req : SyncGroupRequest)
    → (sync now g req).0.generation_id ≡ g.generation_id
unfolding sync
sync-keeps now g req = elim (Bool-cases (req.generation_id ==ℤ g.generation_id)) [
  | inl current ↦ rw current (sync_member-keeps now g req _)
  | inr other ↦ rw other refl
]

beat-keeps :
    (now : ℕ) (g : Group) (found : Option Member)
    → (beat now g found).0.generation_id ≡ g.generation_id
unfolding beat beat_member
beat-keeps now g none = refl
beat-keeps now g (some m) = answer g.state
  where
    answer :
        (state : GroupState)
        → (beat_member state g
            (put_member (record m { last_heartbeat = now }) g.members)).0.generation_id
          ≡ g.generation_id
    answer preparing_rebalance = refl
    answer empty = refl
    answer completing_rebalance = refl
    answer stable = refl

heartbeat-keeps :
    (now : ℕ) (g : Group) (req : HeartbeatRequest)
    → (heartbeat now g req).0.generation_id ≡ g.generation_id
unfolding heartbeat
heartbeat-keeps now g req = elim (Bool-cases (req.generation_id ==ℤ g.generation_id)) [
  | inl current ↦ rw current (beat-keeps now g _)
  | inr other ↦ rw other refl
]

receive-keeps : (g : Group) (channel : ℕ) → (receive g channel).0.generation_id ≡ g.generation_id
unfolding receive
receive-keeps g channel = refl

leave-KeepsOrBumps :
    (pick : List Member → Bytes) (g : Group) (req : LeaveGroupRequest)
    → KeepsOrBumps g (leave pick g req).0
unfolding leave KeepsOrBumps
leave-KeepsOrBumps pick g req = elim (Bool-cases (has_member req.member_id g.members)) [
  | inl there ↦ rw there (members_left-KeepsOrBumps pick g _)
  | inr absent ↦ rw absent (inl refl)
]

expire-KeepsOrBumps :
    (pick : List Member → Bytes) (now : ℕ) (g : Group)
    → KeepsOrBumps g (check_session_timeouts pick now g)
unfolding check_session_timeouts KeepsOrBumps
expire-KeepsOrBumps pick now g =
    elim (Bool-cases (length (keep_members (is_alive now) g.members) == length g.members)) [
      | inl all_alive ↦ rw all_alive (inl refl)
      | inr some_gone ↦ rw some_gone (members_left-KeepsOrBumps pick g _)
    ]

pub Step-KeepsOrBumps : (g h : Group) → Step g h → KeepsOrBumps g h
unfolding KeepsOrBumps
Step-KeepsOrBumps _ _ (joins pick now g req b id p) = join-KeepsOrBumps pick now g req (b ∷ id)
Step-KeepsOrBumps _ _ (syncs now g req) = inl (sync-keeps now g req)
Step-KeepsOrBumps _ _ (receives g channel) = inl (receive-keeps g channel)
Step-KeepsOrBumps _ _ (beats now g req) = inl (heartbeat-keeps now g req)
Step-KeepsOrBumps _ _ (leaves pick g req p) = leave-KeepsOrBumps pick g req
Step-KeepsOrBumps _ _ (expires pick now g p) = expire-KeepsOrBumps pick now g

-- The generation is between `low` and `high`.
pub record IsBetween (low high : ℕ) (g : Group) : Type 0 where
  pub generation : ℕ
  pub is : g.generation_id ≡ pos generation
  pub at_least : low ≤ generation
  pub at_most : generation ≤ high

next-IsBetween :
    (low high : ℕ) (g h : Group)
    → high + 1 < 2 ^ 31
    → KeepsOrBumps g h
    → IsBetween low high g
    → IsBetween low (high + 1) h
unfolding KeepsOrBumps
next-IsBetween low high g h small (inl keeps) b = record {
  generation = b.generation;
  is = keeps ∙ b.is;
  at_least = b.at_least;
  at_most = (let m = b.at_most in omega arith);
}
next-IsBetween low high g h small (inr bumps) b = record {
  generation = b.generation + 1;
  is =
      bumps
      ∙ ap bumped b.is
      ∙ add_wrapped-pos (2 ^ 31) b.generation 1 (let m = b.at_most in omega arith);
  at_least = (let m = b.at_least in omega arith);
  at_most = (let m = b.at_most in omega arith);
}

pub Run-IsBetween :
    (n low high : ℕ) (g h : Group)
    → Run n g h
    → high + n < 2 ^ 31
    → IsBetween low high g
    → IsBetween low (high + n) h
Run-IsBetween _ low high g _ start small b = record {
  generation = b.generation;
  is = b.is;
  at_least = b.at_least;
  at_most = (let m = b.at_most in omega arith);
}
Run-IsBetween _ low high g k (next {n} {h = h} run step) small b =
    subst (λ top. IsBetween low top k) (omega arith)
      (next-IsBetween low (high + n) h k (omega arith) (Step-KeepsOrBumps h k step)
        (Run-IsBetween n low high g h run (omega arith) b))

-- A run of n steps from a group of generation k, with k + n below 2^31, ends in a generation from k
-- to k + n: generations never fall, and a step raises it by one at most.
pub Run-generation :
    (n k : ℕ) (g h : Group)
    → Run n g h
    → g.generation_id ≡ pos k
    → k + n < 2 ^ 31
    → IsBetween k (k + n) h
Run-generation n k g h run e small =
    Run-IsBetween n k k g h run small
      (record { generation = k; is = e; at_least = omega arith; at_most = omega arith })
