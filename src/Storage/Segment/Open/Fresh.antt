-- ===== src/Storage/Segment/Open/Fresh.antt =====
-- NewSegment of internal/storage/segment.go in a directory without its file.
use mini_kafka.Prelude.{ℕ, ◌≤◌, ◌<◌, ◌≡◌, refl, true, List, [], length, arith}
use mini_kafka.Prelude.Int.{pos_part}
use mini_kafka.Storage.Config.{Config, with_defaults}
use mini_kafka.Storage.Index.{Entry, entry_size}
use mini_kafka.Storage.Index.Fresh.{FreshIndex, new_index-Fresh}
use mini_kafka.Storage.Segment.{Segment, Reply, done}
use mini_kafka.Storage.Segment.Contents.{Holds}
use mini_kafka.Storage.Segment.Open.{new_segment, opened_segment}

pub record Fresh (c : Config) (base : ℕ) (r : Reply Segment) : Type 0 where
  pub segment : Segment
  pub made : r ≡ done segment
  pub base_offset : segment.base_offset ≡ base
  pub limit : segment.max_bytes ≡ pos_part (with_defaults c).segment_bytes
  pub slots : List Entry
  pub capacity : 0 < length slots
  pub holds : Holds segment [] slots 0
  pub file : segment.index.is_open ≡ true

pub new_segment-Fresh :
    (c : Config) (base now : ℕ)
    → entry_size ≤ pos_part (with_defaults c).index_max_bytes
    → Fresh c base (new_segment c base [] [] now)
unfolding new_segment opened_segment
new_segment-Fresh c base now h = rw i.made (record {
  segment = _;
  made = refl;
  base_offset = refl;
  limit = refl;
  slots = i.slots;
  capacity = i.capacity;
  holds = record {
    is_open = refl;
    bytes = refl;
    size = refl;
    next = omega arith;
    run = tt;
    bounded = omega arith;
    index = i.valid;
    indexed = λ k lt. absurd (omega arith);
    placed = λ k lt. absurd (omega arith);
    covered = λ lt. absurd (omega arith);
  };
  file = i.file;
})
  where
    i : FreshIndex (pos_part (with_defaults c).index_max_bytes)
    i = new_index-Fresh _ h
