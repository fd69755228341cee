-- ===== src/Replication/Isr/Sole.antt =====
-- internal/replication/isr.go, where the leader is the only replica.
use mini_kafka.Prelude.{
  ℕ, ◌≡◌, refl, sym, [], ◌∷◌, List, arith, Bool-cases, inl, inr, true, map, ◌*◌, ◌^◌,
}
use mathlib.Core.Path.{subst}
use mini_kafka.Prelude.Int.{ℤ, pos, ltb_ℤ, ◌≤ℤ◌, ==ℤ_iff}
use mini_kafka.Replication.Isr.{
  ReplicaState, IsrTracker, update_leo, next_watermark, next_replicas, lesser, min_leo, advance,
  effective_leader_leo, caught_up, sync_state,
}

next_watermark-reaches :
    (hw : ℤ) (n : ℕ) (r : ReplicaState)
    → r.in_sync ≡ true
    → pos n ≤ℤ r.log_end_offset
    → pos n ≤ℤ next_watermark hw (r ∷ [])
unfolding next_watermark min_leo lesser
next_watermark-reaches hw n r s le = ground arith

-- The replica is in sync, and not behind.
abbrev IsAhead : ℕ → ReplicaState → Type 0
IsAhead n r = (r.in_sync ≡ true) × (pos n ≤ℤ r.log_end_offset)

sync-IsAhead :
    (leader id reached : ℤ) (lag now n : ℕ) (r : ReplicaState)
    → leader ≡ id
    → r.broker_id ≡ id
    → pos n ≤ℤ r.log_end_offset
    → IsAhead n (sync_state leader lag now (caught_up id reached now r))
unfolding sync_state caught_up
sync-IsAhead leader id reached lag now n r f e le =
    ground (arith, ==ℤ_iff r.broker_id id, ==ℤ_iff r.broker_id leader)

advance-sole :
    (id : ℤ) (n now : ℕ) (r : ReplicaState)
    → r.broker_id ≡ id
    → (r' : ReplicaState) × (advance id (pos n) now (r ∷ []) ≡ r' ∷ [])
      × (r'.broker_id ≡ id)
      × (pos n ≤ℤ r'.log_end_offset)
unfolding advance
advance-sole id n now r e = elim (Bool-cases (ltb_ℤ r.log_end_offset (pos n))) [
  | inl behind ↦ (
    record r { log_end_offset = pos n },
    simp ((==ℤ_iff r.broker_id id).1 e, behind) refl,
    e,
    omega arith,
  )
  | inr there ↦ (r, simp ((==ℤ_iff r.broker_id id).1 e, there) refl, e, ground arith)
]

-- After the leader's own update, the high watermark is not below the end of its log.
pub update_leo-sole :
    (t : IsrTracker) (now n : ℕ) (id : ℤ) (r : ReplicaState)
    → t.replicas ≡ r ∷ []
    → t.leader_id ≡ id
    → r.broker_id ≡ id
    → pos n ≤ℤ (update_leo t now id (pos n) (pos n)).1
unfolding update_leo next_replicas
update_leo-sole t now n id r sole f e =
    subst (λ rs. pos n ≤ℤ next_watermark t.high_watermark (synced (advance id (pos n) now rs)))
      (sym sole)
      (subst (λ rs. pos n ≤ℤ next_watermark t.high_watermark (synced rs)) (sym a.1)
        (let ahead = sync-IsAhead t.leader_id id (reached (a.0 ∷ [])) lag now n a.0 f a.2 a.3 in
          next_watermark-reaches t.high_watermark n
            (sync_state t.leader_id lag now (caught_up id (reached (a.0 ∷ [])) now a.0)) ahead.0
            ahead.1))
  where
    a :
        (r' : ReplicaState) × (advance id (pos n) now (r ∷ []) ≡ r' ∷ [])
        × (r'.broker_id ≡ id)
        × (pos n ≤ℤ r'.log_end_offset)
    a = advance-sole id n now r e

    lag : ℕ
    lag = t.replica_lag_time_max_ms * 10 ^ 6

    reached : List ReplicaState → ℤ
    reached rs = effective_leader_leo t.leader_id (pos n) rs

    synced : List ReplicaState → List ReplicaState
    synced rs = map (sync_state t.leader_id lag now) (map (caught_up id (reached rs) now) rs)
