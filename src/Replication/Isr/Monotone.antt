-- ===== src/Replication/Isr/Monotone.antt =====
-- What an update does to the replicas' log end offsets and to the in-sync set.
use mini_kafka.Prelude.{
  ℕ, ◌-◌, ◌*◌, ◌^◌, ◌≡◌, refl, sym, ◌∙◌, not, ◌||◌, Option, none, some, List, [], ◌∷◌, All, map,
  ltb, arith, if◌then◌else◌,
}
use mini_kafka.Prelude.Int.{ℤ, ltb_ℤ, ◌==ℤ◌, ==ℤ_iff}
use mini_kafka.Replication.Isr.{
  ReplicaState, IsrTracker, update_leo, next_replicas, find, advance, caught_up, sync_state,
  effective_leader_leo,
}

-- The log end offset of a broker, if it is tracked.
unfoldable pub leo_of : ℤ → List ReplicaState → Option ℤ
unfolding find
leo_of id rs = elim (find id rs) [ none ↦ none | some r ↦ some r.log_end_offset ]

-- The offset that an update by a broker leaves: the first report, or the greater one.
abbrev pub raised : Option ℤ → ℤ → ℤ
raised none leo = leo
raised (some old) leo = if ltb_ℤ old leo then leo else old

leo_of-cons :
    (id : ℤ) (r : ReplicaState) (rs : List ReplicaState)
    → leo_of id (r ∷ rs) ≡ (if r.broker_id ==ℤ id then some r.log_end_offset else leo_of id rs)
unfolding leo_of
leo_of-cons id r rs = ground arith

leo_of-advance :
    (id other leo : ℤ) (now : ℕ) (rs : List ReplicaState)
    → leo_of other (advance id leo now rs)
      ≡ (if id ==ℤ other then some (raised (leo_of id rs) leo) else leo_of other rs)
unfolding advance
leo_of-advance id other leo now [] = unfold leo_of in ground arith
leo_of-advance id other leo now (r ∷ rs) = ground (
  arith,
  leo_of-cons id r rs,
  leo_of-cons other r rs,
  leo_of-cons other r (advance id leo now rs),
  leo_of-cons other (record r { log_end_offset = leo }) rs,
  leo_of-advance id other leo now rs,
  ==ℤ_iff r.broker_id id,
  ==ℤ_iff r.broker_id other,
  ==ℤ_iff id other,
)

-- The later passes keep ids and offsets.
pub leo_of-map :
    (f : ReplicaState → ReplicaState)
    → ((r : ReplicaState)
        → ((f r).broker_id ≡ r.broker_id) × ((f r).log_end_offset ≡ r.log_end_offset))
    → (id : ℤ) (rs : List ReplicaState) → leo_of id (map f rs) ≡ leo_of id rs
leo_of-map f keeps id [] = refl
leo_of-map f keeps id (r ∷ rs) =
    let (same_id, same_leo) = keeps r in
    leo_of-cons id (f r) (map f rs)
    ∙ rw (same_id, same_leo, leo_of-map f keeps id rs) (sym (leo_of-cons id r rs))

pub caught_up-keeps :
    (id reached : ℤ) (now : ℕ) (r : ReplicaState)
    → ((caught_up id reached now r).broker_id ≡ r.broker_id)
      × ((caught_up id reached now r).log_end_offset ≡ r.log_end_offset)
unfolding caught_up
caught_up-keeps id reached now r = ground arith

pub sync_state-keeps :
    (leader : ℤ) (lag now : ℕ) (r : ReplicaState)
    → ((sync_state leader lag now r).broker_id ≡ r.broker_id)
      × ((sync_state leader lag now r).log_end_offset ≡ r.log_end_offset)
unfolding sync_state
sync_state-keeps leader lag now r = ground arith

-- An update by a broker sets its log end offset to the greater of the old and the reported one, or
-- to the reported one if the broker was not tracked, and leaves the offset of every other broker as
-- it was.
pub leo_of-update_leo :
    (t : IsrTracker) (now : ℕ) (id other leo leader_leo : ℤ)
    → leo_of other (update_leo t now id leo leader_leo).0.replicas
      ≡ (if id ==ℤ other then some (raised (leo_of id t.replicas) leo) else leo_of other t.replicas)
unfolding update_leo next_replicas
leo_of-update_leo t now id other leo leader_leo =
    let max_lag = t.replica_lag_time_max_ms * 10 ^ 6 in
    let rs = advance id leo now t.replicas in
    let reached = effective_leader_leo t.leader_id leader_leo rs in
    leo_of-map (sync_state t.leader_id max_lag now) (sync_state-keeps t.leader_id max_lag now) other
      (map (caught_up id reached now) rs)
    ∙ leo_of-map (caught_up id reached now) (caught_up-keeps id reached now) other rs
    ∙ leo_of-advance id other leo now t.replicas

-- In sync are the leader and whoever was caught up within the allowed lag.
abbrev pub InSyncRule : ℤ → ℕ → ℕ → ReplicaState → Type 0
InSyncRule leader max_lag now r =
    r.in_sync ≡ (r.broker_id ==ℤ leader || not (ltb max_lag (now - r.last_caught_up_time)))

All-sync_state :
    (leader : ℤ) (lag now : ℕ) (rs : List ReplicaState)
    → All (InSyncRule leader lag now) (map (sync_state leader lag now) rs)
unfolding sync_state
All-sync_state leader lag now [] = tt
All-sync_state leader lag now (r ∷ rs) = (ground arith, All-sync_state leader lag now rs)

-- After an update at a time, a replica is marked in sync exactly if it is the leader or was caught
-- up within the allowed lag before that time.
pub update_leo-InSyncRule :
    (t : IsrTracker) (now : ℕ) (id leo leader_leo : ℤ)
    → All
        (InSyncRule t.leader_id (t.replica_lag_time_max_ms * 10 ^ 6) now)
        (update_leo t now id leo leader_leo).0.replicas
unfolding update_leo next_replicas
update_leo-InSyncRule t now id leo leader_leo = All-sync_state t.leader_id _ now _
