-- ===== src/Coordinator/Group/Fencing.antt =====
-- internal/coordinator/group.go: requests of a generation that a group has left.
use mini_kafka.Prelude.{
  ℕ, ◌≡◌, ◌≢◌, refl, ap, ◌∙◌, ◌+◌, ◌^◌, ◌<◌, true, false, List, [], ◌∷◌, arith,
}
use mini_kafka.Prelude.Int.{ℤ, pos, ◌==ℤ◌, add_wrapped, add_wrapped-pos}
use mini_kafka.Protocol.Stream.{Bytes}
use mini_kafka.Protocol.Requests.SyncGroup.{SyncGroupRequest}
use mini_kafka.Protocol.Requests.Heartbeat.{HeartbeatRequest}
use mini_kafka.Protocol.Requests.LeaveGroup.{LeaveGroupRequest}
use mini_kafka.Coordinator.Group.{
  Group, Member, has_member, transition_to_rebalance, members_left, err_illegal_generation,
}
use mini_kafka.Coordinator.Group.Sync.{refused, sync, heartbeat, leave}
use mini_kafka.Coordinator.Group.Steps.{Run}
use mini_kafka.Coordinator.Group.Generations.{IsBetween, Run-IsBetween}

-- What a group answers to a request of the generation `k`.
pub record Refuses (k : ℕ) (g : Group) : Type 0 where
  pub of_heartbeat :
      (now : ℕ) (req : HeartbeatRequest)
      → req.generation_id ≡ pos k
      → heartbeat now g req ≡ (g, err_illegal_generation)
  pub of_sync :
      (now : ℕ) (req : SyncGroupRequest)
      → req.generation_id ≡ pos k
      → sync now g req ≡ (g, refused err_illegal_generation)

later-Refuses : (k n : ℕ) (g : Group) → k < n → g.generation_id ≡ pos n → Refuses k g
unfolding heartbeat sync
later-Refuses k n g less e = record {
  of_heartbeat = λ now req r. rw (differs req.generation_id r) refl;
  of_sync = λ now req r. rw (differs req.generation_id r) refl;
}
  where
    differs : (z : ℤ) → z ≡ pos k → (z ==ℤ g.generation_id) ≡ false
    differs z r = rw (r, e) (ground arith)

-- A member leaves, and others stay.
left-generation :
    (pick : List Member → Bytes) (g : Group) (left : List Member)
    → (members_left pick g left).members ≢ []
    → (members_left pick g left).generation_id ≡ add_wrapped (2 ^ 31) g.generation_id 1
unfolding members_left transition_to_rebalance
left-generation pick g [] n = absurd (n refl)
left-generation pick g (m ∷ ms) n = refl

leave-generation :
    (pick : List Member → Bytes) (g : Group) (req : LeaveGroupRequest)
    → has_member req.member_id g.members ≡ true
    → (leave pick g req).0.members ≢ []
    → (leave pick g req).0.generation_id ≡ add_wrapped (2 ^ 31) g.generation_id 1
unfolding leave
leave-generation pick g req there = rw there (left-generation pick g _)

-- If a member leaves a group of generation k and others are left, then after any n further steps of
-- the group, with k + 1 + n below 2^31, a heartbeat and a SyncGroup of generation k are refused
-- with an illegal generation and change nothing.
pub Run-leave-Refuses :
    (pick : List Member → Bytes) (g h : Group) (req : LeaveGroupRequest) (k n : ℕ)
    → g.generation_id ≡ pos k
    → k + 1 + n < 2 ^ 31
    → has_member req.member_id g.members ≡ true
    → (leave pick g req).0.members ≢ []
    → Run n (leave pick g req).0 h
    → Refuses k h
Run-leave-Refuses pick g h req k n e small there others run =
    let b = Run-IsBetween n (k + 1) (k + 1) (leave pick g req).0 h run small after in
    let m = b.at_least in later-Refuses k b.generation h (omega arith) b.is
  where
    after : IsBetween (k + 1) (k + 1) (leave pick g req).0
    after = record {
      generation = k + 1;
      is =
          leave-generation pick g req there others
          ∙ ap (λ z. add_wrapped (2 ^ 31) z 1) e
          ∙ add_wrapped-pos (2 ^ 31) k 1 (omega arith);
      at_least = omega arith;
      at_most = omega arith;
    }
