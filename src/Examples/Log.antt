-- ===== src/Examples/Log.antt =====
-- A log of two segments at concrete inputs, the second of which is full.
use mini_kafka.Prelude.{
  ℕ, zero, suc, ◌+◌, ◌^◌, ◌<◌, ◌≡◌, refl, true, false, none, some, List, [], ◌∷◌, ◌++◌, length,
  arith, length-append,
}
use mini_kafka.Prelude.Int.{pos}
use mini_kafka.Storage.Config.{Config, with_defaults}
use mini_kafka.Storage.Record.{Record, encoded_size, image}
use mini_kafka.Storage.Record.RoundTrip.{IsRecord, length-image}
use mini_kafka.Storage.Index.{Entry, zero_entry, slot}
use mini_kafka.Storage.Segment.{Segment}
use mini_kafka.Storage.Segment.Contents.{Holds, log_bytes, start_of}
use mini_kafka.Storage.Log.{Log, returned, append, append_batch, read}
use mini_kafka.Storage.Log.Contents.{IsUsable, LogHolds}
use mini_kafka.Storage.Log.Append.{Logged, append-Logged}
use mini_kafka.Storage.Log.Batch.{stamped_from, LoggedAll, append_batch-LoggedAll}
use mini_kafka.Storage.Log.Read.{Reads, read-Reads}
use mini_kafka.Storage.Log.Retain.{run_retention}
use mini_kafka.Storage.Log.Retain.Suffix.{Bounded, run_retention-Bounded}
use mini_kafka.Prelude.{take, false, ◌*◌}
use mini_kafka.Prelude.Int.{negsuc}
use mini_kafka.Storage.Record.RoundTrip.{le-encoded_size}
use mini_kafka.Storage.Index.Fresh.{FreshIndex, new_index-Fresh}
use mini_kafka.Storage.Segment.{is_full}
use mini_kafka.Storage.Rebuild.{rebuild_segment}
use mini_kafka.Storage.Rebuild.Recovery.{torn, emptied, Recovered, rebuild_segment-Recovered}
use mini_kafka.Storage.Segment.{flush_writer}
use mini_kafka.Storage.Segment
use mini_kafka.Storage.Segment.Append.{Appended, append-Appended}
use mini_kafka.Storage.Segment.Flush.{Flushed, flush_writer-Flushed}
use mini_kafka.Storage.Segment.{done}
use mini_kafka.Storage.Segment.ReadFrom.{complete}
use mini_kafka.Storage.Segment.ReadFrom
use mini_kafka.Storage.Segment.ReadFrom.Within.{read_from-within}
use mini_kafka.Storage.Log.ReadFrom.{read_from}
use mini_kafka.Storage.Log.ReadFrom.Next.{read_from-next}

abbrev pub rec : ℕ → Record
rec offset = record {
  offset = pos offset;
  timestamp = pos 1700000000;
  attributes = pos 0;
  key = none;
  value = some (104 ∷ []);
}

abbrev slots : List Entry
slots = zero_entry ∷ zero_entry ∷ []

-- A segment with one record, which is indexed.
abbrev pub single : ℕ → Segment
single b = record {
  base_offset = b;
  next_offset = b + 1;
  written = log_bytes (rec b ∷ []);
  flushed = length (log_bytes (rec b ∷ []));
  index = record { slots = some slots; size = 8; max_size = 16; is_open = true };
  max_bytes = 30;
  index_interval = 4096;
  bytes_written = length (log_bytes (rec b ∷ []));
  bytes_since_last_index = 34;
  closed = false;
  created_at = 0;
}

module _ (b : ℕ) (small : b < 2 ^ 63) where
  pub rec-IsRecord : IsRecord (rec b)
  unfolding encoded_size
  rec-IsRecord = record {
    offset = omega arith;
    timestamp = omega arith;
    attributes = omega arith;
    fits = omega arith;
  }

  length-single : (single b).bytes_written ≡ 34
  unfolding encoded_size
  length-single = omega (arith, length-append (image (rec b)) [], length-image (rec b))

  pub single-Holds : Holds (single b) (rec b ∷ []) slots 1
  single-Holds = record {
    is_open = refl;
    bytes = refl;
    size = refl;
    next = refl;
    run = (rec-IsRecord, refl, tt);
    bounded = omega (arith, length-single);
    index = record {
      mapped = refl;
      size = refl;
      max_size = refl;
      used = omega arith;
      sorted = record { rising = λ a c l h. absurd (omega arith) };
    };
    indexed = indexed;
    placed = placed;
    covered = λ _. omega arith;
  }
    where
      indexed : (k : ℕ) → k < 1 → (slot slots k).relative_offset < 1
      indexed zero h = omega arith
      indexed (suc k) h = absurd (omega arith)

      placed :
          (k : ℕ)
          → k < 1
          → (slot slots k).position ≡ start_of (rec b ∷ []) (slot slots k).relative_offset
      placed zero h = refl
      placed (suc k) h = absurd (omega arith)

abbrev pub config : Config
config = record {
  segment_bytes = pos 30;
  index_interval_bytes = pos 0;
  index_max_bytes = pos 16;
  flush_messages = pos 1;
  flush_ms = pos 0;
  segment_ms = pos 0;
  retention_bytes = pos 40;
  retention_ms = pos 0;
}

abbrev pub log : Log
log = record {
  config = config;
  sealed = single 7 ∷ [];
  active = single 8;
  active_created_at = 0;
  messages_since_flush = 0;
  last_flush = 0;
  closed = false;
}

pub config-IsUsable : IsUsable config
unfolding with_defaults
config-IsUsable = record {
  index_room = omega arith;
  some_bytes = omega arith;
  positions = omega arith;
}

pub log-LogHolds : LogHolds log 7 (rec 7 ∷ rec 8 ∷ [])
unfolding with_defaults
log-LogHolds = record {
  is_open = refl;
  usable = config-IsUsable;
  old = rec 7 ∷ [];
  recent = rec 8 ∷ [];
  all = refl;
  chain = (rec 7 ∷ [], [], refl, refl, (slots, 1, single-Holds 7 (omega arith)), refl);
  synced = (refl, tt);
  base = refl;
  active = record {
    slots = slots;
    count = 1;
    holds = single-Holds 8 (omega arith);
    capacity = omega arith;
    limit = refl;
    file = refl;
  };
}

append-Logged_example : Logged 7 (rec 7 ∷ rec 8 ∷ []) (rec 0) (append log 5 (rec 0))
append-Logged_example =
    append-Logged log 5 7 (rec 7 ∷ rec 8 ∷ []) (rec 0) log-LogHolds (rec-IsRecord 9 (omega arith))

append_batch-LoggedAll_example :
    LoggedAll 7 9
      ((rec 7 ∷ rec 8 ∷ []) ++ stamped_from 9 (rec 0 ∷ rec 0 ∷ []))
      (append_batch log 5 (rec 0 ∷ rec 0 ∷ []))
append_batch-LoggedAll_example =
    append_batch-LoggedAll log 5 7 (rec 7 ∷ rec 8 ∷ []) (rec 0) (rec 0 ∷ []) log-LogHolds
      (rec-IsRecord 9 (omega arith), (rec-IsRecord 10 (omega arith), tt))

read-Reads_example : Reads 7 (rec 7 ∷ rec 8 ∷ []) (returned (rec 8)) (read log (pos 8))
read-Reads_example = read-Reads log 7 (rec 7 ∷ rec 8 ∷ []) log-LogHolds 8

-- A segment of which the last record is torn.
abbrev torn_segment : Segment
torn_segment = record (single 7) { written = log_bytes (rec 7 ∷ []) ++ take 10 (image (rec 8)) }

abbrev new_one : FreshIndex 16
new_one = new_index-Fresh 16 (omega arith)

-- The record fits the emptied segment.
first_fits : is_full (emptied torn_segment new_one.index) ≡ false
unfolding is_full
first_fits =
    let size : new_one.index.size ≡ 0 * 8 = new_one.valid.size in
    let max_size : new_one.index.max_size ≡ length new_one.slots * 8 = new_one.valid.max_size in
    let capacity = new_one.capacity in ground arith

rebuild_segment-Recovered_example :
    Recovered torn_segment new_one.index (rec 7 ∷ []) (rebuild_segment torn_segment (negsuc 0))
rebuild_segment-Recovered_example =
    rebuild_segment-Recovered torn_segment (negsuc 0) (rec 7 ∷ []) (take 10 (image (rec 8)))
      new_one.index refl refl (omega arith) new_one.made (omega arith) (omega arith)
      (rec-IsRecord 7 (omega arith), refl, tt) (first_fits, tt) (λ k lt. refl)
      (torn (rec 8) 10 (rec-IsRecord 8 (omega arith))
        (omega (arith, length-image (rec 8), le-encoded_size (rec 8))))

run_retention-Bounded_example : Bounded log 7 (rec 7 ∷ rec 8 ∷ []) (run_retention log 5)
run_retention-Bounded_example =
    run_retention-Bounded log 5 7 (rec 7 ∷ rec 8 ∷ []) log-LogHolds (tt, tt)

-- A segment of two records, flushed.
appended :
    Appended
      (single 7)
      (rec 7 ∷ [])
      slots
      1
      (single-Holds 7 (omega arith))
      (rec 0)
      (rec-IsRecord 8 (omega arith))
      (omega (arith, length-single 7 (omega arith)))
      (Segment.append (single 7) (rec 0))
appended =
    append-Appended (single 7) (rec 7 ∷ []) slots 1 (single-Holds 7 (omega arith)) (rec 0)
      (rec-IsRecord 8 (omega arith)) (omega (arith, length-single 7 (omega arith))) (omega arith)

abbrev two : Segment
two = (flush_writer (Segment.append (single 7) (rec 0)).0).0

two-Flushed :
    Flushed
      (Segment.append (single 7) (rec 0)).0
      two
      (rec 7 ∷ rec 8 ∷ [])
      appended.slots
      appended.count
two-Flushed =
    flush_writer-Flushed (Segment.append (single 7) (rec 0)).0 (rec 7 ∷ rec 8 ∷ []) appended.slots
      appended.count appended.holds

abbrev log_two : Log
log_two = record log { sealed = two ∷ []; active = single 9 }

two-next : 9 ≡ two.next_offset
two-next = omega (arith, two-Flushed.holds.next, two-Flushed.base, appended.base)

-- The record at 8 does not fit the budget, and the one at 9 is given without it.
read_from-next_example : read_from log_two (pos (two.base_offset + 0)) (pos 50) ≡ (
  record log_two { active = record (single 9) { flushed = length (single 9).written } },
  (rec 7 ∷ rec 9 ∷ [], none),
)
unfolding encoded_size
read_from-next_example =
    read_from-next log_two two (rec 7 ∷ rec 8 ∷ []) (rec 9 ∷ []) appended.slots slots appended.count
      1 refl refl two-Flushed.holds (single-Holds 9 (omega arith)) two-Flushed.all two-next 0 50
      (omega arith) (omega arith) (omega arith) (omega arith)

read_from-within_example :
    ReadFrom.read_from (single 7) (pos 7) (pos 50) ≡ done (complete (rec 7 ∷ []))
unfolding encoded_size
read_from-within_example =
    read_from-within (single 7) (rec 7 ∷ []) slots 1 (single-Holds 7 (omega arith)) refl 50
      (omega arith) 7 (omega arith)
