-- ===== src/Replication/Isr/Watermark.antt =====
-- The high watermark against the in-sync replicas.
use mini_kafka.Prelude.{ℕ, ◌≡◌, refl, true, List, [], ◌∷◌, All, arith, ◌⊎◌, inl, inr, Bool-cases}
use mini_kafka.Prelude.Int.{ℤ, pos, negsuc, ltb_ℤ, ◌≤ℤ◌}
use mini_kafka.Replication.Isr.{
  ReplicaState, IsrTracker, update_leo, next_watermark, next_replicas, lesser, min_leo,
}

-- An update never moves the high watermark back, and the high watermark that it returns is the one
-- that it keeps.
pub update_leo-hw_mono :
    (t : IsrTracker) (now : ℕ) (broker_id leo leader_leo : ℤ)
    → (t.high_watermark ≤ℤ (update_leo t now broker_id leo leader_leo).1)
      × ((update_leo t now broker_id leo leader_leo).0.high_watermark
          ≡ (update_leo t now broker_id leo leader_leo).1)
unfolding update_leo next_watermark
update_leo-hw_mono t now broker_id leo leader_leo = (ground arith, refl)

-- Offsets are not negative, so that -1 stands for "none yet".
abbrev pub IsOffset : ReplicaState → Type 0
IsOffset r = pos 0 ≤ℤ r.log_end_offset

-- `hw` is covered by every replica that is in sync.
abbrev pub Covers : ℤ → ReplicaState → Type 0
Covers hw r = r.in_sync ≡ true → hw ≤ℤ r.log_end_offset

lesser-le :
    (least : ℤ) (r : ReplicaState)
    → pos 0 ≤ℤ least
    → IsOffset r
    → (lesser least r ≤ℤ least) × (pos 0 ≤ℤ lesser least r)
unfolding lesser
lesser-le least r h p = ground arith

-- A least offset so far: none yet, or an offset.
abbrev IsLeast : ℤ → Type 0
IsLeast least = (least ≡ negsuc 0) ⊎ (pos 0 ≤ℤ least)

lesser-in_sync :
    (least : ℤ) (r : ReplicaState)
    → IsLeast least
    → IsOffset r
    → r.in_sync ≡ true
    → (lesser least r ≤ℤ r.log_end_offset) × (pos 0 ≤ℤ lesser least r)
unfolding lesser
lesser-in_sync least r h p e = ground arith

lesser-IsLeast :
    (least : ℤ) (r : ReplicaState) → IsLeast least → IsOffset r → IsLeast (lesser least r)
unfolding lesser
lesser-IsLeast least r h p = ground arith

min_leo-le :
    (least : ℤ) (rs : List ReplicaState)
    → pos 0 ≤ℤ least
    → All IsOffset rs
    → (min_leo least rs ≤ℤ least) × (pos 0 ≤ℤ min_leo least rs)
unfolding min_leo
min_leo-le least [] h hs = (omega arith, h)
min_leo-le least (r ∷ rs) h (p, ps) =
    let (low, nonneg) = lesser-le least r h p in
    let (lower, stays) = min_leo-le (lesser least r) rs nonneg ps in
    (omega (arith, low, lower), stays)

min_leo-Covers :
    (least : ℤ) (rs : List ReplicaState)
    → IsLeast least
    → All IsOffset rs
    → All (Covers (min_leo least rs)) rs
unfolding min_leo
min_leo-Covers least [] h hs = tt
min_leo-Covers least (r ∷ rs) h (p, ps) = (
  λ e.
      let (low, nonneg) = lesser-in_sync least r h p e in
      let (lower, stays) = min_leo-le (lesser least r) rs nonneg ps in omega (arith, low, lower),
  min_leo-Covers (lesser least r) rs (lesser-IsLeast least r h p) ps,
)

-- If the log end offsets of the replicas are not negative after an update, the update leaves the
-- high watermark where it was or moves it to an offset that every replica then in sync has reached.
pub update_leo-Covers :
    (t : IsrTracker) (now : ℕ) (broker_id leo leader_leo : ℤ)
    → All IsOffset (update_leo t now broker_id leo leader_leo).0.replicas
    → ((update_leo t now broker_id leo leader_leo).1 ≡ t.high_watermark)
      ⊎ All
          (Covers (update_leo t now broker_id leo leader_leo).1)
          (update_leo t now broker_id leo leader_leo).0.replicas
unfolding update_leo next_watermark
update_leo-Covers t now broker_id leo leader_leo h =
    elim (Bool-cases (
      ltb_ℤ t.high_watermark (min_leo (negsuc 0) (next_replicas t now broker_id leo leader_leo)))) [
        | inl up ↦ rw up (inr (min_leo-Covers (negsuc 0) _ (inl refl) h))
        | inr stays ↦ rw stays (inl refl)
      ]
