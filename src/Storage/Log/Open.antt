-- ===== src/Storage/Log/Open.antt =====
-- internal/storage/log.go: NewLog. What scanBaseOffsets finds in the directory, and the files behind
-- it, are an argument, in the order of the base offsets. When the scan of a directory fails, or a
-- segment does not open, the reply has the error.
pub mod Fresh
use mini_kafka.Prelude.{ℕ, false, List, [], ◌∷◌, ◌==◌, length, if◌then◌else◌}
use mini_kafka.Prelude.Int.{negsuc}
use mini_kafka.Protocol.Stream.{Bytes}
use mini_kafka.Storage.Config.{Config, with_defaults}
use mini_kafka.Storage.Index.{Entry}
use mini_kafka.Storage.Segment.{Segment, Reply, done, failed}
use mini_kafka.Storage.Segment.Open.{new_segment}
use mini_kafka.Storage.Rebuild.{rebuild_segment}
use mini_kafka.Storage.Log.{Log, LogReply, returned, log_failed, segment_failed}

pub record SegmentFile : Type 0 where
  pub base : ℕ
  pub file : Bytes
  pub index_file : List Entry
  pub modified : ℕ

-- The segments that are opened before the last one, with those.
pub data Segments : Type 0 where
  no_segment : Segments
  all_but_last : List Segment → Segment → Segments

-- The time of creation: that of the last change, or the present for an empty file.
pub created_at : ℕ → SegmentFile → ℕ
created_at now f = if length f.file == 0 then now else f.modified

pub in_front : Segment → Segments → Segments
in_front s no_segment = all_but_last [] s
in_front s (all_but_last ss last) = all_but_last (s ∷ ss) last

pub join : Reply Segment → Reply Segments → Reply Segments
unfolding in_front
join (failed e) rest = failed e
join (done s) (failed e) = failed e
join (done s) (done ss) = done (in_front s ss)

-- The loop over the base offsets.
pub open_segments : Config → ℕ → List SegmentFile → Reply Segments
unfolding created_at join
open_segments c now [] = done no_segment
open_segments c now (f ∷ fs) =
    join (new_segment c f.base f.file f.index_file (created_at now f)) (open_segments c now fs)

pub opened_log : Config → ℕ → List Segment → Segment → Log
opened_log c now sealed active = record {
  config = c;
  sealed = sealed;
  active = active;
  active_created_at = now;
  messages_since_flush = 0;
  last_flush = now;
  closed = false;
}

-- Behind the recovery of the active segment.
pub recovered : Config → ℕ → List Segment → Segment × Reply (Unit {0}) → LogReply Log
unfolding opened_log
recovered c now sealed (s, failed e) = log_failed (segment_failed e)
recovered c now sealed (s, done u) = returned (opened_log c now sealed s)

pub first_segment : Config → ℕ → Reply Segment → LogReply Log
unfolding opened_log
first_segment c now (failed e) = log_failed (segment_failed e)
first_segment c now (done s) = returned (opened_log c now [] s)

pub with_segments : Config → ℕ → Reply Segments → LogReply Log
unfolding recovered first_segment
with_segments c now (failed e) = log_failed (segment_failed e)
with_segments c now (done no_segment) = first_segment c now (new_segment c 0 [] [] now)
with_segments c now (done (all_but_last ss last)) =
    recovered c now ss (rebuild_segment last (negsuc 0))

-- NewLog
pub new_log : Config → List SegmentFile → ℕ → LogReply Log
unfolding open_segments with_segments
new_log cfg files now = let c = with_defaults cfg in with_segments c now (open_segments c now files)
