-- ===== src/Coordinator/Offsets/Durable.antt =====
-- internal/coordinator/offsets.go: the cache against the log.
use mini_kafka.Prelude.{
  ℕ, ◌+◌, ◌%◌, ◌≡◌, ◌≢◌, refl, sym, ap, ◌∙◌, true, Bool-cases, inl, inr, Option, none, some, List,
  [], ◌∷◌, ◌++◌, length, get_elem?, get_elem?-set_self, get_elem?-lt, get_elem?-set_ne, ◌==◌,
  ==_iff, ==_false→ne, str_eq, str_eq_iff, if◌then◌else◌, arith,
}
use mini_kafka.Prelude.Int.{ℤ, IsInt64}
use mathlib.Core.Path.{subst}
use mini_kafka.Protocol.Stream.{Bytes}
use mini_kafka.Storage.Record.{Record}
use mini_kafka.Storage.Record.RoundTrip.{IsRecord}
use mini_kafka.Storage.Log.{Log, LogReply, returned, log_failed, append}
use mini_kafka.Storage.Log.Contents.{LogHolds}
use mini_kafka.Storage.Log.Append.{at_offset, Logged, append-Logged}
use mini_kafka.Coordinator.Offsets.{
  CacheEntry, OffsetStore, lookup, put, replay_records, replay_key, commit_record, offset_key,
  fnv_32a, after_append, write_commit, log_of, commit, fetch, offset_or_none,
}
use mini_kafka.Coordinator.Offsets.Cache.{
  lookup-put, lookup-rolled_back, replay_records-append, replay_key-commit,
}

-- The log number `i` holds the records `rs`, and what the cache has under a key is what a replay of
-- these gives.
pub record Recorded (s : OffsetStore) (key : Bytes) (i lowest : ℕ) (rs : List Record) : Type 0 where
  pub is_started : s.started ≡ true
  pub log : Log
  pub there : get_elem? s.logs i ≡ some log
  pub holds : LogHolds log lowest rs
  pub agrees : lookup s.cache key ≡ lookup (replay_records [] rs) key

-- The log of a group.
abbrev pub home : OffsetStore → Bytes → ℕ
home s group_id = fnv_32a group_id % s.num_parts

module _ (s : OffsetStore) (now i lowest : ℕ) (rs : List Record) (key key' : Bytes)
    (offset : ℤ) where
  abbrev written : Record
  written = at_offset (lowest + length rs) (commit_record now key' offset)

  abbrev stored : OffsetStore
  stored = record s { cache = put s.cache key' offset }

  -- Behind the append to the log that holds `rs`.
  after_own :
      (replays : (es : List CacheEntry)
        → replay_key es (commit_record now key' offset).key (commit_record now key' offset).value
          ≡ put es key' offset)
      (r : Recorded s key i lowest rs) (out : Log × LogReply ℕ)
      → Logged lowest rs (commit_record now key' offset) out
      → Recorded
          (after_append stored key' (lookup s.cache key') i out)
          key
          i
          lowest
          (rs ++ written ∷ [])
  unfolding after_append
  after_own replays r (l, log_failed e) g = let x = g.replied in cc
  after_own replays r (l, returned o) g = record {
    is_started = r.is_started;
    log = l;
    there = get_elem?-set_self s.logs i l (get_elem?-lt s.logs i r.log r.there);
    holds = g.holds;
    agrees =
        lookup-put s.cache key' key offset
        ∙ ap (λ found. if str_eq key' key then some offset else found) r.agrees
        ∙ sym (lookup-put (replay_records [] rs) key' key offset)
        ∙ ap (λ es. lookup es key)
            (sym (replay_records-append [] rs written ∙ replays (replay_records [] rs)));
  }

  -- Behind the append to another log.
  after_other :
      (j : ℕ) (r : Recorded s key i lowest rs) (out : Log × LogReply ℕ)
      → j ≢ i
      → key' ≢ key
      → Recorded (after_append stored key' (lookup s.cache key') j out) key i lowest rs
  unfolding after_append
  after_other j r (l, log_failed e) away other = record {
    is_started = r.is_started;
    log = r.log;
    there = get_elem?-set_ne s.logs j i l away ∙ r.there;
    holds = r.holds;
    agrees = lookup-rolled_back s.cache key' key offset ∙ r.agrees;
  }
  after_other j r (l, returned o) away other = record {
    is_started = r.is_started;
    log = r.log;
    there = get_elem?-set_ne s.logs j i l away ∙ r.there;
    holds = r.holds;
    agrees = kept ∙ r.agrees;
  }
    where
      kept : lookup (put s.cache key' offset) key ≡ lookup s.cache key
      kept = ground (arith, lookup-put s.cache key' key offset, str_eq_iff key' key)

  other_log :
      (j : ℕ) (r : Recorded s key i lowest rs) (l : Option Log)
      → j ≢ i
      → key' ≢ key
      → Recorded (write_commit stored now key' (lookup s.cache key') offset j l) key i lowest rs
  unfolding write_commit
  other_log j r none away other = record {
    is_started = r.is_started;
    log = r.log;
    there = r.there;
    holds = r.holds;
    agrees = ground (arith, lookup-put s.cache key' key offset, str_eq_iff key' key, r.agrees);
  }
  other_log j r (some l) away other =
      after_other j r (append l now (commit_record now key' offset)) away other

  found : (r : Recorded s key i lowest rs) → log_of stored i ≡ some r.log
  found r = simp r.is_started r.there

  own_log :
      (replays : (es : List CacheEntry)
        → replay_key es (commit_record now key' offset).key (commit_record now key' offset).value
          ≡ put es key' offset)
      (r : Recorded s key i lowest rs)
      → IsRecord written
      → Recorded
          (write_commit stored now key' (lookup s.cache key') offset i (log_of stored i))
          key
          i
          lowest
          (rs ++ written ∷ [])
  unfolding write_commit
  own_log replays r v =
      subst
        (λ l.
          Recorded (write_commit stored now key' (lookup s.cache key') offset i l) key i lowest
            (rs ++ written ∷ []))
        (sym (found r))
        (after_own replays r (append r.log now (commit_record now key' offset))
          (append-Logged r.log now lowest rs (commit_record now key' offset) r.holds v))

-- The records of a log after a commit by a group.
abbrev pub grown : OffsetStore → ℕ → Bytes → ℕ → List Record → Record → List Record
grown s i group_id lowest rs rec =
    if home s group_id == i then rs ++ at_offset (lowest + length rs) rec ∷ [] else rs

-- On a started store of which the log number i holds the records rs from the offset lowest on, and
-- whose cache has under a key what a replay of rs gives, the same is so after any commit of an
-- offset of 64 bits whose record is well formed and that no other commit overlaps, for the log's
-- records then, which are rs with the record of the commit if the group's log is the log number i,
-- and rs otherwise; a commit under the same key is to belong to the log number i.
pub commit-Recorded :
    (s : OffsetStore) (now i lowest : ℕ) (rs : List Record) (key group_id topic : Bytes)
    (partition offset : ℤ)
    → Recorded s key i lowest rs
    → IsInt64 offset
    → (offset_key group_id topic partition ≡ key → home s group_id ≡ i)
    → IsRecord (
        at_offset
          (lowest + length rs)
          (commit_record now (offset_key group_id topic partition) offset))
    → Recorded (commit s now group_id topic partition offset) key i lowest (
        grown s i group_id lowest rs
          (commit_record now (offset_key group_id topic partition) offset))
unfolding commit
commit-Recorded s now i lowest rs key group_id topic partition offset r wide same_log v =
    elim (Bool-cases (home s group_id == i)) [
      | inl here ↦ simp here (
          subst
            (λ j.
              Recorded
                (write_commit (record s { cache = put s.cache key' offset }) now key'
                  (lookup s.cache key') offset j
                  (log_of (record s { cache = put s.cache key' offset }) j))
                key i lowest
                (rs ++ at_offset (lowest + length rs) (commit_record now key' offset) ∷ []))
            (sym ((==_iff (home s group_id) i).0 here))
            (own_log s now i lowest rs key key' offset
              (λ es. replay_key-commit es now group_id topic partition offset wide) r v))
      | inr away ↦ simp away (
          other_log s now i lowest rs key key' offset (home s group_id) r
            (log_of (record s { cache = put s.cache key' offset }) (home s group_id))
            (==_false→ne (home s group_id) i away)
            (λ e. ==_false→ne (home s group_id) i away (same_log e)))
    ]
  where
    key' : Bytes
    key' = offset_key group_id topic partition

-- On a started store of which the group's log holds the records rs, and whose cache has under the
-- key of a group, a topic and a partition what a replay of rs gives, a fetch after a commit of an
-- offset of 64 bits, whose record is well formed and that no other commit overlaps, gives this
-- offset, and so does a replay of the log's records then.
pub fetch-commit :
    (s : OffsetStore) (now lowest : ℕ) (rs : List Record) (group_id topic : Bytes)
    (partition offset : ℤ)
    → Recorded s (offset_key group_id topic partition) (home s group_id) lowest rs
    → IsInt64 offset
    → IsRecord (
        at_offset
          (lowest + length rs)
          (commit_record now (offset_key group_id topic partition) offset))
    → (fetch (commit s now group_id topic partition offset) group_id topic partition ≡ offset)
      × (lookup
            (replay_records [] (
              grown s
                (home s group_id)
                group_id
                lowest
                rs
                (commit_record now (offset_key group_id topic partition) offset)))
            (offset_key group_id topic partition)
          ≡ some offset)
unfolding fetch
fetch-commit s now lowest rs group_id topic partition offset r wide v =
    (ap offset_or_none (after.agrees ∙ last), last)
  where
    key : Bytes
    key = offset_key group_id topic partition

    after :
        Recorded
          (commit s now group_id topic partition offset)
          key
          (home s group_id)
          lowest
          (grown s (home s group_id) group_id lowest rs (commit_record now key offset))
    after =
        commit-Recorded s now (home s group_id) lowest rs key group_id topic partition offset r wide
          (λ e. refl) v

    last :
        lookup
          (replay_records []
            (grown s (home s group_id) group_id lowest rs (commit_record now key offset)))
          key
        ≡ some offset
    last = simp ((==_iff (home s group_id) (home s group_id)).1 refl) (
        ap (λ es. lookup es key)
          (replay_records-append [] rs
              (at_offset (lowest + length rs) (commit_record now key offset))
            ∙ replay_key-commit (replay_records [] rs) now group_id topic partition offset wide)
        ∙ lookup-put (replay_records [] rs) key key offset
        ∙ ap (λ same. if same then some offset else lookup (replay_records [] rs) key)
            ((str_eq_iff key key).1 refl))
