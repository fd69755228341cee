-- ===== src/Replication/Isr/CaughtUp.antt =====
-- UpdateLEO of internal/replication/isr.go: the state of one replica before it and behind it.
use mini_kafka.Prelude.{
  ℕ, ◌*◌, ◌^◌, ◌≡◌, refl, sym, ap, ◌∙◌, Bool, Bool-cases, inl, inr, true, false, ◌&&◌, Option, none,
  some, List, [], ◌∷◌, map, arith, if◌then◌else◌,
}
use mathlib.Core.Path.{subst}
use mathlib.Core.Option.{some-injective}
use mini_kafka.Prelude.Int.{ℤ, ltb_ℤ, leb_ℤ, ◌==ℤ◌, ==ℤ_iff}
use mini_kafka.Replication.Isr.{
  ReplicaState, IsrTracker, update_leo, next_replicas, find, advance, caught_up, sync_state,
  effective_leader_leo,
}
use mini_kafka.Replication.Isr.Monotone.{
  leo_of, raised, leo_of-map, caught_up-keeps, sync_state-keeps, InSyncRule,
}

find-hit :
    (id : ℤ) (x : ReplicaState) (rs : List ReplicaState)
    → (x.broker_id ==ℤ id) ≡ true
    → find id (x ∷ rs) ≡ some x
unfolding find
find-hit id x rs e = simp e refl

find-miss :
    (id : ℤ) (x : ReplicaState) (rs : List ReplicaState)
    → (x.broker_id ==ℤ id) ≡ false
    → find id (x ∷ rs) ≡ find id rs
unfolding find
find-miss id x rs e = simp e refl

find-nil : (id : ℤ) → find id [] ≡ none
unfolding find
find-nil id = refl

-- The first state of an id under a map that keeps ids.
find-map :
    (f : ReplicaState → ReplicaState)
    → ((r : ReplicaState) → (f r).broker_id ≡ r.broker_id)
    → (id : ℤ) (rs : List ReplicaState) (r : ReplicaState) → find id rs ≡ some r
    → find id (map f rs) ≡ some (f r)
find-map f keeps id [] r e = let nothing = find-nil id in cc
find-map f keeps id (x ∷ rs) r e = elim (Bool-cases (x.broker_id ==ℤ id)) [
  | inl here ↦
      find-hit id (f x) (map f rs) (ap (λ i. i ==ℤ id) (keeps x) ∙ here)
      ∙ ap (λ y. some (f y)) (some-injective x r (sym (find-hit id x rs here) ∙ e))
  | inr other ↦
      find-miss id (f x) (map f rs) (ap (λ i. i ==ℤ id) (keeps x) ∙ other)
      ∙ find-map f keeps id rs r (sym (find-miss id x rs other) ∙ e)
]

find-id :
    (id : ℤ) (rs : List ReplicaState) (r : ReplicaState) → find id rs ≡ some r → r.broker_id ≡ id
find-id id [] r e = let nothing = find-nil id in cc
find-id id (x ∷ rs) r e = elim (Bool-cases (x.broker_id ==ℤ id)) [
  | inl here ↦
      subst (λ y. y.broker_id ≡ id) (some-injective x r (sym (find-hit id x rs here) ∙ e))
        ((==ℤ_iff x.broker_id id).0 here)
  | inr other ↦ find-id id rs r (sym (find-miss id x rs other) ∙ e)
]

-- The offset of a state of `other` behind an advance of `id`.
abbrev pub raised_if : Bool → ℤ → ReplicaState → ℤ
raised_if reports leo r = if reports then raised (some r.log_end_offset) leo else r.log_end_offset

advance-hit :
    (id leo : ℤ) (now : ℕ) (x : ReplicaState) (rs : List ReplicaState)
    → (x.broker_id ==ℤ id) ≡ true
    → advance id leo now (x ∷ rs) ≡ record x { log_end_offset = raised_if true leo x } ∷ rs
unfolding advance
advance-hit id leo now x rs e = elim (Bool-cases (ltb_ℤ x.log_end_offset leo)) [
  | inl more ↦ simp (e, more) refl
  | inr kept ↦ simp (e, kept) refl
]

advance-miss :
    (id leo : ℤ) (now : ℕ) (x : ReplicaState) (rs : List ReplicaState)
    → (x.broker_id ==ℤ id) ≡ false
    → advance id leo now (x ∷ rs) ≡ x ∷ advance id leo now rs
unfolding advance
advance-miss id leo now x rs e = simp e refl

find-advance :
    (id other leo : ℤ) (now : ℕ) (rs : List ReplicaState) (r : ReplicaState)
    → find other rs ≡ some r
    → find other (advance id leo now rs)
      ≡ some (record r { log_end_offset = raised_if (id ==ℤ other) leo r })
find-advance id other leo now [] r e = let nothing = find-nil other in cc
find-advance id other leo now (x ∷ rs) r e = elim (Bool-cases (x.broker_id ==ℤ other)) [
  | inl here ↦
      let same : x ≡ r = some-injective x r (sym (find-hit other x rs here) ∙ e) in
      subst
        (λ y.
          find other (advance id leo now (x ∷ rs))
          ≡ some (record y { log_end_offset = raised_if (id ==ℤ other) leo y }))
        same
        (elim (Bool-cases (x.broker_id ==ℤ id)) [
          | inl reports ↦
              let own : (id ==ℤ other) ≡ true =
                ground
                  (arith, ==ℤ_iff x.broker_id id, ==ℤ_iff x.broker_id other, ==ℤ_iff id other) in
              rw (advance-hit id leo now x rs reports, own) (find-hit other _ rs here)
          | inr silent ↦
              let away : (id ==ℤ other) ≡ false =
                ground
                  (arith, ==ℤ_iff x.broker_id id, ==ℤ_iff x.broker_id other, ==ℤ_iff id other) in
              rw (advance-miss id leo now x rs silent, away)
                (find-hit other x (advance id leo now rs) here)
        ])
  | inr missed ↦
      let rest = find-advance id other leo now rs r (sym (find-miss other x rs missed) ∙ e) in
      elim (Bool-cases (x.broker_id ==ℤ id)) [
        | inl reports ↦
            let away : (id ==ℤ other) ≡ false =
              ground (arith, ==ℤ_iff x.broker_id id, ==ℤ_iff x.broker_id other, ==ℤ_iff id other) in
            rw (advance-hit id leo now x rs reports, away)
              (find-miss other _ rs missed ∙ sym (find-miss other x rs missed) ∙ e)
        | inr silent ↦
            rw (advance-miss id leo now x rs silent)
              (find-miss other x (advance id leo now rs) missed ∙ rest)
      ]
]

-- An offset that is not below another one, if there is one.
abbrev pub reaches : ℤ → Option ℤ → Bool
reaches l none = true
reaches l (some m) = leb_ℤ m l

effective_leader_leo-leo_of :
    (leader_id leader_leo l : ℤ) (rs : List ReplicaState)
    → leb_ℤ (effective_leader_leo leader_id leader_leo rs) l
      ≡ (leb_ℤ leader_leo l && reaches l (leo_of leader_id rs))
unfolding effective_leader_leo leo_of
effective_leader_leo-leo_of leader_id leader_leo l rs = go (find leader_id rs) refl
  where
    go :
        (o : Option ReplicaState)
        → find leader_id rs ≡ o
        → leb_ℤ (effective_leader_leo leader_id leader_leo rs) l
          ≡ (leb_ℤ leader_leo l && reaches l (leo_of leader_id rs))
    go none e = rw (effective_leader_leo, leo_of, e) (ground arith)
    go (some m) e = rw (effective_leader_leo, leo_of, e) (ground arith)

-- The state of a broker behind an update, against the one before it.
pub record Updated (t : IsrTracker) (now : ℕ) (id leo leader_leo other : ℤ) (r : ReplicaState)
    : Type 0 where
  pub state : ReplicaState
  pub there : find other (update_leo t now id leo leader_leo).0.replicas ≡ some state
  pub offset : state.log_end_offset ≡ raised_if (id ==ℤ other) leo r
  pub caught_up : state.last_caught_up_time ≡ (
      if (id ==ℤ other)
        && (leb_ℤ leader_leo state.log_end_offset
            && reaches state.log_end_offset
                (leo_of t.leader_id (update_leo t now id leo leader_leo).0.replicas))
      then now
      else r.last_caught_up_time)
  pub in_sync : InSyncRule t.leader_id (t.replica_lag_time_max_ms * 10 ^ 6) now state

caught_up-time :
    (id reached : ℤ) (now : ℕ) (r : ReplicaState)
    → (caught_up id reached now r).last_caught_up_time ≡ (
        if r.broker_id ==ℤ id && leb_ℤ reached r.log_end_offset then now else r.last_caught_up_time)
unfolding caught_up
caught_up-time id reached now r = ground arith

sync_state-time :
    (leader : ℤ) (lag now : ℕ) (r : ReplicaState)
    → (sync_state leader lag now r).last_caught_up_time ≡ r.last_caught_up_time
unfolding sync_state
sync_state-time leader lag now r = ground arith

sync_state-InSyncRule :
    (leader : ℤ) (lag now : ℕ) (r : ReplicaState)
    → InSyncRule leader lag now (sync_state leader lag now r)
unfolding sync_state
sync_state-InSyncRule leader lag now r = ground arith

-- A replica that is tracked is there after an update by a broker at a time; its log end offset is
-- the greater of the old and the reported one if the broker is its own, and the old one otherwise;
-- it counts as caught up at that time if the broker is its own and this offset is not below the
-- reported offset of the leader and the one that the leader is then tracked with, and as before
-- otherwise; and it is marked in sync exactly if it is the leader or was caught up within the
-- allowed lag before that time.
pub update_leo-Updated :
    (t : IsrTracker) (now : ℕ) (id leo leader_leo other : ℤ) (r : ReplicaState)
    → find other t.replicas ≡ some r
    → Updated t now id leo leader_leo other r
unfolding update_leo next_replicas
update_leo-Updated t now id leo leader_leo other r e = record {
  state = sync_state t.leader_id max_lag now (caught_up id reached now moved);
  there =
      find-map (sync_state t.leader_id max_lag now)
        (λ x. (sync_state-keeps t.leader_id max_lag now x).0) other _ _
        (find-map (caught_up id reached now) (λ x. (caught_up-keeps id reached now x).0) other rs
          moved advanced);
  offset = same_offset;
  caught_up =
      sync_state-time t.leader_id max_lag now (caught_up id reached now moved)
      ∙ caught_up-time id reached now moved
      ∙ ap (λ c. if c then now else r.last_caught_up_time)
          (ap (λ c. c && leb_ℤ reached moved.log_end_offset) own
            ∙ ap (λ c. (id ==ℤ other) && c)
                (effective_leader_leo-leo_of t.leader_id leader_leo moved.log_end_offset rs
                  ∙ ap (λ l. leb_ℤ leader_leo l && reaches l (leo_of t.leader_id rs))
                      (sym same_offset)
                  ∙ ap
                      (λ o. leb_ℤ leader_leo final.log_end_offset && reaches final.log_end_offset o)
                      (sym same_leader)));
  in_sync = sync_state-InSyncRule t.leader_id max_lag now (caught_up id reached now moved);
}
  where
    max_lag : ℕ
    max_lag = t.replica_lag_time_max_ms * 10 ^ 6

    rs : List ReplicaState
    rs = advance id leo now t.replicas

    reached : ℤ
    reached = effective_leader_leo t.leader_id leader_leo rs

    moved : ReplicaState
    moved = record r { log_end_offset = raised_if (id ==ℤ other) leo r }

    advanced : find other rs ≡ some moved
    advanced = find-advance id other leo now t.replicas r e

    final : ReplicaState
    final = sync_state t.leader_id max_lag now (caught_up id reached now moved)

    same_offset : final.log_end_offset ≡ moved.log_end_offset
    same_offset =
        (sync_state-keeps t.leader_id max_lag now (caught_up id reached now moved)).1
        ∙ (caught_up-keeps id reached now moved).1

    own : (moved.broker_id ==ℤ id) ≡ (id ==ℤ other)
    own =
        let same : r.broker_id ≡ other = find-id other t.replicas r e in
        ground (arith, ==ℤ_iff r.broker_id id, ==ℤ_iff id other)

    same_leader :
        leo_of t.leader_id (update_leo t now id leo leader_leo).0.replicas ≡ leo_of t.leader_id rs
    same_leader =
        leo_of-map (sync_state t.leader_id max_lag now) (sync_state-keeps t.leader_id max_lag now)
          t.leader_id (map (caught_up id reached now) rs)
        ∙ leo_of-map (caught_up id reached now) (caught_up-keeps id reached now) t.leader_id rs
