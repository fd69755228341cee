-- ===== src/Storage/Log/Open/Fresh.antt =====
-- NewLog of internal/storage/log.go in an empty directory.
use mini_kafka.Prelude.{ℕ, ◌≡◌, refl, ◌∙◌, [], arith}
use mini_kafka.Storage.Config.{Config, with_defaults}
use mini_kafka.Storage.Segment.{done}
use mini_kafka.Storage.Segment.Open.{new_segment}
use mini_kafka.Storage.Segment.Open.Fresh.{Fresh, new_segment-Fresh}
use mini_kafka.Storage.Log.{Log, LogReply, returned, highest_offset}
use mini_kafka.Storage.Log.Contents.{IsUsable, LogHolds}
use mini_kafka.Storage.Log.Open.{new_log, with_segments, first_segment, open_segments, opened_log}

pub record FreshLog (r : LogReply Log) : Type 0 where
  pub log : Log
  pub made : r ≡ returned log
  pub holds : LogHolds log 0 []
  pub end : highest_offset log ≡ 0

first_segment-Fresh :
    (c : Config) (now : ℕ)
    → IsUsable c
    → (f : Fresh c 0 (new_segment c 0 [] [] now)) → FreshLog (first_segment c now (done f.segment))
unfolding first_segment opened_log highest_offset
first_segment-Fresh c now u f = record {
  log = opened_log c now [] f.segment;
  made = refl;
  holds = record {
    is_open = refl;
    usable = u;
    old = [];
    recent = [];
    all = refl;
    chain = refl;
    synced = tt;
    base = f.base_offset ∙ omega arith;
    active = record {
      slots = f.slots;
      count = 0;
      holds = f.holds;
      capacity = f.capacity;
      limit = f.limit;
      file = f.file;
    };
  };
  end = omega (arith, f.holds.next, f.base_offset);
}

pub new_log-Fresh :
    (c : Config) (now : ℕ) → IsUsable (with_defaults c) → FreshLog (new_log c [] now)
unfolding new_log open_segments with_segments
new_log-Fresh c now u = rw f.made (first_segment-Fresh (with_defaults c) now u f)
  where
    f : Fresh (with_defaults c) 0 (new_segment (with_defaults c) 0 [] [] now)
    f = new_segment-Fresh (with_defaults c) 0 now u.index_room
