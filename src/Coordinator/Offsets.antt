-- ===== src/Coordinator/Offsets.antt =====
-- internal/coordinator/offsets.go: the committed offsets, a cache in front of the logs of
-- __consumer_offsets. The cache is a list, searched by key; the present time in nanoseconds is an
-- argument, and so is what the directories of the logs hold when the store is started. Package
-- hash/fnv's FNV-1a hash and the decimal form of a number are written out. Commit gives its lock
-- back before it appends; commits that overlap are not modelled.
pub mod Cache
pub mod Durable
pub mod Replay
use Prim.Native.Nat.{bit_xor}
use mini_kafka.Prelude.{
  ℕ, zero, suc, ◌+◌, ◌-◌, ◌*◌, ◌/◌, ◌%◌, ◌^◌, Bool, true, false, Option, none, some, List, [], ◌∷◌,
  ◌++◌, ltb, leb, ◌==◌, str_eq, length, get_elem?, set, take, map, if◌then◌else◌,
}
use mini_kafka.Prelude.Int.{ℤ, pos, negsuc, signed, unsigned, ◌+ℤ◌, leb_ℤ}
use mini_kafka.Protocol.Stream.{Bytes}
use mini_kafka.Protocol.Codec.{be, of_be}
use mini_kafka.Storage.Config.{Config}
use mini_kafka.Storage.Record.{Record}
use mini_kafka.Storage.Log.{Log, LogReply, LogError, returned, log_failed, append, highest_offset}
use mini_kafka.Storage.Log.Open.{SegmentFile, new_log}
use mini_kafka.Storage.Log.ReadFrom.{Found, read_from}
use mini_kafka.Storage.Log.Retain.{close}

pub record CacheEntry : Type 0 where
  pub key : Bytes
  pub offset : ℤ

pub record OffsetStore : Type 0 where
  pub cache : List CacheEntry
  pub num_parts : ℕ
  pub logs : List Log
  pub started : Bool

-- NewOffsetStore
pub new_offset_store : ℤ → OffsetStore
new_offset_store (pos (suc n)) = record {
  cache = [];
  num_parts = suc n;
  logs = [];
  started = false;
}
new_offset_store z = record { cache = []; num_parts = 50; logs = []; started = false }

-- The decimal digits of a number, for at most `fuel` of them; a number has fewer digits than the
-- number behind it.
unfoldable pub digits : ℕ → ℕ → Bytes
digits zero n = []
digits (suc fuel) n =
    let rest = digits fuel (n / 10) in
    if ltb n 10 then (48 + n) ∷ [] else rest ++ (48 + n % 10) ∷ []

unfoldable pub decimal : ℤ → Bytes
unfolding digits
decimal (pos n) = digits (suc n) n
decimal (negsuc k) = 45 ∷ digits (suc (suc k)) (suc k)

-- fmt.Sprintf("%s:%s:%d", groupID, topic, partition)
unfoldable pub offset_key : Bytes → Bytes → ℤ → Bytes
unfolding decimal
offset_key group_id topic partition = group_id ++ 58 ∷ topic ++ 58 ∷ decimal partition

fnv_rest : ℕ → Bytes → ℕ
fnv_rest h [] = h
fnv_rest h (b ∷ bs) = fnv_rest (bit_xor h b * 16777619 % 2 ^ 32) bs

-- fnv.New32a
pub fnv_32a : Bytes → ℕ
unfolding fnv_rest
fnv_32a bs = fnv_rest 2166136261 bs

unfoldable pub lookup : List CacheEntry → Bytes → Option ℤ
lookup [] key = none
lookup (e ∷ es) key = let rest = lookup es key in if str_eq e.key key then some e.offset else rest

unfoldable pub put : List CacheEntry → Bytes → ℤ → List CacheEntry
put [] key offset = record { key = key; offset = offset } ∷ []
put (e ∷ es) key offset =
    let rest = put es key offset in
    if str_eq e.key key then record e { offset = offset } ∷ es else e ∷ rest

unfoldable pub delete : List CacheEntry → Bytes → List CacheEntry
delete [] key = []
delete (e ∷ es) key = let rest = delete es key in if str_eq e.key key then rest else e ∷ rest

-- The record of a commit.
unfoldable pub commit_record : ℕ → Bytes → ℤ → Record
commit_record now key offset = record {
  offset = pos 0;
  timestamp = pos (now / 10 ^ 6);
  attributes = pos 0;
  key = some key;
  value = some (be 8 (unsigned (2 ^ 63) offset));
}

-- The cache behind a failed append, from the one before the commit.
pub rolled_back : List CacheEntry → Option ℤ → Bytes → List CacheEntry
rolled_back cache (some old) key = put cache key old
rolled_back cache none key = delete cache key

pub after_append : OffsetStore → Bytes → Option ℤ → ℕ → Log × LogReply ℕ → OffsetStore
unfolding rolled_back
after_append s key old i (l, returned o) = record s { logs = set s.logs i l }
after_append s key old i (l, log_failed e) = record s {
  logs = set s.logs i l;
  cache = rolled_back s.cache old key;
}

abbrev pub log_of : OffsetStore → ℕ → Option Log
log_of s i = if s.started then get_elem? s.logs i else none

pub write_commit : OffsetStore → ℕ → Bytes → Option ℤ → ℤ → ℕ → Option Log → OffsetStore
unfolding after_append commit_record
write_commit s now key old offset i none = s
write_commit s now key old offset i (some l) =
    after_append s key old i (append l now (commit_record now key offset))

-- Commit: its write of the cache, which ends with the release of the lock, and write_commit behind
-- it, as one step: no other commit comes between the two.
pub commit : OffsetStore → ℕ → Bytes → Bytes → ℤ → ℤ → OffsetStore
unfolding write_commit offset_key fnv_32a
commit s now group_id topic partition offset =
    let key = offset_key group_id topic partition in
    let i = fnv_32a group_id % s.num_parts in
    write_commit (record s { cache = put s.cache key offset }) now key (lookup s.cache key) offset i
      (log_of s i)

-- -1 stands for none.
abbrev pub offset_or_none : Option ℤ → ℤ
offset_or_none (some offset) = offset
offset_or_none none = negsuc 0

-- Fetch
pub fetch : OffsetStore → Bytes → Bytes → ℤ → ℤ
unfolding offset_key
fetch s group_id topic partition =
    offset_or_none (lookup s.cache (offset_key group_id topic partition))

-- What a record of the log does to the cache.
replay_field : List CacheEntry → Bytes → Option Bytes → List CacheEntry
replay_field cache key none = cache
replay_field cache key (some value) =
    if ltb (length value) 8 then cache else put cache key (signed (2 ^ 63) (of_be (take 8 value)))

unfoldable pub replay_key : List CacheEntry → Option Bytes → Option Bytes → List CacheEntry
unfolding replay_field
replay_key cache none value = cache
replay_key cache (some []) value = cache
replay_key cache (some (b ∷ bs)) value = replay_field cache (b ∷ bs) value

unfoldable pub replay_records : List CacheEntry → List Record → List CacheEntry
unfolding replay_key
replay_records cache [] = cache
replay_records cache (r ∷ rs) = replay_records (replay_key cache r.key r.value) rs

-- The offset behind the last of the records, the first of which is `r`.
pub behind_last : Record → List Record → ℤ
behind_last r [] = r.offset +ℤ pos 1
behind_last r (s ∷ rs) = behind_last s rs

-- One round of the loop, on what ReadFrom gives.
pub replay_step :
    List CacheEntry
    → (Log → ℤ → List CacheEntry → Option (Log × List CacheEntry))
    → Log × Found
    → Option (Log × List CacheEntry)
unfolding replay_records behind_last
replay_step cache further (l, (rs, some e)) = some (l, cache)
replay_step cache further (l, ([], none)) = some (l, cache)
replay_step cache further (l, (r ∷ rs, none)) =
    further l (behind_last r rs) (replay_records cache (r ∷ rs))

-- The loop of Start over one log: `none` if it has not ended after `fuel` rounds.
pub replay_log : ℕ → Log → ℤ → List CacheEntry → Option (Log × List CacheEntry)
unfolding replay_step
replay_log zero l offset cache = none
replay_log (suc fuel) l offset cache =
    replay_step cache (λ l' offset' cache'. replay_log fuel l' offset' cache')
      (read_from l offset (pos (2 ^ 30)))

abbrev pub offsets_config : Config
offsets_config = record {
  segment_bytes = pos (10 * 1024 * 1024);
  index_max_bytes = pos (1024 * 1024);
  index_interval_bytes = pos 4096;
  retention_ms = negsuc 0;
  retention_bytes = negsuc 0;
  flush_ms = pos 1000;
  flush_messages = pos 0;
  segment_ms = pos 0;
}

-- The log that was replayed, with the cache; a replay that does not end gives no started store.
abbrev pub replayed : OffsetStore → Option (Log × List CacheEntry) → OffsetStore × Bool
replayed s none = (s, false)
replayed s (some (l, cache)) = (record s { cache = cache; logs = s.logs ++ l ∷ [] }, true)

pub started_log : OffsetStore → LogReply Log → OffsetStore × Bool
unfolding replay_log
started_log s (log_failed e) = (s, false)
started_log s (returned l) = replayed s (replay_log (suc (highest_offset l)) l (pos 0) s.cache)

-- The loop of Start, for `count` logs from the number `i` on, while they open. Every round of a
-- replay ends at a higher offset, so one more than the end of the log is fuel enough.
pub start_logs : (ℕ → List SegmentFile) → ℕ → ℕ → ℕ → OffsetStore × Bool → OffsetStore × Bool
unfolding started_log
start_logs files now i zero out = out
start_logs files now i (suc count) (s, false) = (s, false)
start_logs files now i (suc count) (s, true) =
    start_logs files now (suc i) count (started_log s (new_log offsets_config (files i) now))

abbrev marked : OffsetStore × Bool → OffsetStore
marked (s, false) = record s { logs = [] }
marked (s, true) = record s { started = true }

-- Start: the store with its logs, or without if one of them does not open.
pub start : OffsetStore → (ℕ → List SegmentFile) → ℕ → OffsetStore
unfolding start_logs
start s files now =
    if s.started
    then s
    else marked (start_logs files now 0 s.num_parts (record s { logs = [] }, true))

-- Close
pub close_store : OffsetStore → OffsetStore
close_store s = if s.started then record s { logs = []; started = false } else s
