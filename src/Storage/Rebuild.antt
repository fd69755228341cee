-- ===== src/Storage/Rebuild.antt =====
-- internal/storage/log.go: rebuildSegment, the recovery of a segment from its file. Offsets in the
-- file are taken not to be negative, and a base offset to be below 2^63.
pub mod Again
pub mod Scan
pub mod Recovery
use mini_kafka.Prelude.{
  ℕ, zero, suc, ◌+◌, ◌-◌, ◌%◌, ◌^◌, ◌&&◌, Option, none, some, [], take, length, if◌then◌else◌,
}
use mini_kafka.Prelude.Int.{ℤ, pos, leb_ℤ, pos_part}
use mini_kafka.Protocol.Stream.{Bytes, Result, ok, err}
use mini_kafka.Storage.Record.{Record, decode_record}
use mini_kafka.Storage.Index.{Index, IndexError, Opened, opened, refused, new_index}
use mini_kafka.Storage.Index
use mini_kafka.Storage.Segment.{
  Segment, Reply, done, failed, segment_closed, index_failed, index_due,
}

-- The entry of a record, and the offset behind it.
pub entered : Segment → ℕ → Option IndexError × Index → Segment × Reply (Unit {0})
entered s offset (some e, i) = (record s { index = i }, failed (index_failed e))
entered s offset (none, i) =
    (record s { index = i; bytes_since_last_index = 0; next_offset = offset + 1 }, done tt)

-- A record of `n` bytes counts, and is indexed as an append would.
pub recount : Segment → ℕ → ℕ → Segment × Reply (Unit {0})
unfolding entered
recount s offset n =
    let s' = record s {
      bytes_written = s.bytes_written + n;
      bytes_since_last_index = s.bytes_since_last_index + n;
    } in
    if index_due s'
    then entered s' offset (
        Index.append s.index ((offset + (2 ^ 64 - s.base_offset)) % 2 ^ 32)
          (s.bytes_written % 2 ^ 32))
    else (record s' { next_offset = offset + 1 }, done tt)

-- The scan goes on unless an index entry has failed.
pub rescan_rest :
    (Segment → Segment × Reply (Unit {0})) → Segment × Reply (Unit {0}) → Segment × Reply (Unit {0})
rescan_rest further (s, failed e) = (s, failed e)
rescan_rest further (s, done u) = further s

-- One round, on the result of DecodeRecord: an error or the stop offset ends the scan.
pub rescan_step :
    ℤ
    → Segment
    → (Bytes → Segment → Segment × Reply (Unit {0}))
    → Result (Record × ℕ) × Bytes
    → Segment × Reply (Unit {0})
unfolding recount rescan_rest
rescan_step stop s further (err e, left) = (s, done tt)
rescan_step stop s further (ok (r, n), left) =
    if leb_ℤ (pos 0) stop && leb_ℤ stop r.offset
    then (s, done tt)
    else rescan_rest (further left) (recount s (pos_part r.offset) n)

-- The loop over the file, for at most `fuel` records.
pub rescan : ℕ → ℤ → Bytes → Segment → Segment × Reply (Unit {0})
unfolding rescan_step
rescan zero stop file s = (s, done tt)
rescan (suc fuel) stop file s =
    rescan_step stop s (λ left s'. rescan fuel stop left s') (decode_record file)

-- The file is cut behind the last record that was taken.
pub cut : Segment × Reply (Unit {0}) → Segment × Reply (Unit {0})
cut (s, failed e) = (s, failed e)
cut (s, done u) =
    (record s { written = take s.bytes_written s.written; flushed = s.bytes_written }, done tt)

-- Behind the flush, with a new index. A record takes a byte at least, so the number of bytes is
-- fuel enough.
pub with_index : ℤ → Segment → Opened → Segment × Reply (Unit {0})
unfolding rescan cut
with_index stop s (refused e) = (record s { index = Index.close s.index }, failed (index_failed e))
with_index stop s (opened i) = cut (
    rescan (suc (length s.written)) stop s.written (record s {
      index = i;
      bytes_written = 0;
      bytes_since_last_index = 0;
      next_offset = s.base_offset;
    }))

-- rebuildSegment
pub rebuild_segment : Segment → ℤ → Segment × Reply (Unit {0})
unfolding with_index
rebuild_segment s stop =
    if s.closed
    then (s, failed segment_closed)
    else with_index stop (record s { flushed = length s.written }) (new_index [] s.index.max_size)
