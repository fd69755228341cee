-- ===== src/Storage/Segment/ReadFrom.antt =====
-- internal/storage/segment.go: ReadFrom, the records from an offset on within a budget.
pub mod Within
use mini_kafka.Prelude.{ℕ, zero, suc, ◌-◌, ◌%◌, ◌^◌, List, [], ◌∷◌, ◌&&◌, length, if◌then◌else◌}
use mini_kafka.Prelude.Int.{ℤ, pos, ltb_ℤ, leb_ℤ, pos_part, add_wrapped}
use mini_kafka.Protocol.Stream.{Bytes, Error, eof, unexpected_eof, Result, ok, err}
use mini_kafka.Storage.Record.{Record, decode_record}
use mini_kafka.Storage.Index.{Answer, answer, lookup_failed, lookup}
use mini_kafka.Storage.Segment.{
  Segment, Reply, done, failed, segment_closed, offset_out_of_range, index_failed, view_from,
}

-- The records so far, with the error that ended the scan where it is not the end of the data.
pub data Batch : Type 0 where
  complete : List Record → Batch
  broken : List Record → Error → Batch

abbrev consed : Record → Batch → Batch
consed r (complete rs) = complete (r ∷ rs)
consed r (broken rs e) = broken (r ∷ rs) e

abbrev ended : Error → Batch
ended eof = complete []
ended unexpected_eof = complete []
ended e = broken [] e

-- One round, on the result of DecodeRecord: records below the offset are skipped, and the first one
-- is taken whatever its size is. The sum is an int32.
pub gather_step : ℕ → ℤ → ℤ → (ℤ → Bytes → Batch) → Result (Record × ℕ) × Bytes → Batch
gather_step offset max_bytes accumulated rest (err e, left) = ended e
gather_step offset max_bytes accumulated rest (ok (r, n), left) =
    let sum = add_wrapped (2 ^ 31) accumulated n in
    if ltb_ℤ r.offset (pos offset)
    then rest accumulated left
    else if ltb_ℤ (pos 0) accumulated && ltb_ℤ max_bytes sum
    then complete []
    else consed r (rest sum left)

-- The loop, for at most `fuel` records.
pub gather : ℕ → ℕ → ℤ → ℤ → Bytes → Batch
unfolding gather_step
gather zero offset max_bytes accumulated s = complete []
gather (suc fuel) offset max_bytes accumulated s =
    gather_step offset max_bytes accumulated (gather fuel offset max_bytes) (decode_record s)

-- A record takes a byte at least, so the number of bytes is fuel enough.
pub gather_from : Segment → ℕ → ℤ → Answer → Reply Batch
unfolding gather
gather_from s offset max_bytes (lookup_failed e) = failed (index_failed e)
gather_from s offset max_bytes (answer position exact) =
    done
      (gather (suc (length (view_from s position))) offset max_bytes (pos 0) (view_from s position))

-- ReadFrom. No offset is negative, so a negative one lies below the base.
pub read_from : Segment → ℤ → ℤ → Reply Batch
unfolding gather_from
read_from s offset max_bytes =
    if s.closed
    then failed segment_closed
    else if leb_ℤ max_bytes (pos 0)
    then done (complete [])
    else if ltb_ℤ offset (pos s.base_offset)
    then failed offset_out_of_range
    else gather_from s (pos_part offset) max_bytes
        (lookup s.index ((pos_part offset - s.base_offset) % 2 ^ 32))
