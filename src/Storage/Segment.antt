-- ===== src/Storage/Segment.antt =====
-- internal/storage/segment.go: one segment of a partition's log. Offsets are numbers from 0 on;
-- `written` is all that went to the buffered writer, of which the file holds the first `flushed`
-- bytes. Times are nanoseconds. The calls to the operating system are taken to succeed.
pub mod Contents
pub mod Append
pub mod Read
pub mod Flush
pub mod Open
pub mod ReadFrom
use mini_kafka.Prelude.{
  ℕ, zero, suc, ◌+◌, ◌-◌, ◌*◌, ◌%◌, ◌^◌, Bool, true, false, Option, none, some, List, [], ◌∷◌, ◌++◌,
  ◌&&◌, ◌||◌, ltb, leb, ◌==◌, take, drop, length, if◌then◌else◌,
}
use mini_kafka.Prelude.Int.{ℤ, pos, negsuc, leb_ℤ, ltb_ℤ}
use mini_kafka.Protocol.Stream.{Bytes, Error, eof, unexpected_eof, Result, ok, err}
use mini_kafka.Storage.Record.{Record, encode, encoded_size, decode_record}
use mini_kafka.Storage.Index.{
  Index, IndexError, entry_size, Answer, answer, lookup_failed, entries, lookup,
}
use mini_kafka.Storage.Index

pub record Segment : Type 0 where
  pub base_offset : ℕ
  pub next_offset : ℕ
  pub written : Bytes
  pub flushed : ℕ
  pub index : Index
  pub max_bytes : ℕ
  pub index_interval : ℕ
  pub bytes_written : ℕ
  pub bytes_since_last_index : ℕ
  pub created_at : ℕ
  pub closed : Bool

pub data SegmentError : Type 0 where
  segment_closed offset_out_of_range position_overflow offset_not_found : SegmentError
  encode_failed decode_failed : Error → SegmentError
  index_failed : IndexError → SegmentError

pub data Reply {ℓ} (A : Type ℓ) : Type ℓ where
  done : A → Reply A
  failed : SegmentError → Reply A

abbrev pub max_uint32 : ℕ
max_uint32 = 2 ^ 32 - 1

-- bufio.NewWriterSize(logFile, 256*1024)
abbrev buffer_size : ℕ
buffer_size = 256 * 1024

-- How far the file reaches after bufio's Write of `n` bytes behind `total`, of which the buffer
-- still held those from `flushed` on.
bufio_write : ℕ → ℕ → ℕ → ℕ
bufio_write flushed total n =
    let available = buffer_size - (total - flushed) in
    if leb n available
    then flushed
    else if flushed == total
    then total + n
    else if leb (n - available) buffer_size
    then total + available
    else total + n

-- The state once the record's `n` bytes are in the writer.
unfoldable pub wrote : Segment → Bytes → Segment
unfolding bufio_write
wrote s all =
    let n = length all - length s.written in
    record s {
      written = all;
      flushed = bufio_write s.flushed (length s.written) n;
      bytes_written = s.bytes_written + n;
      bytes_since_last_index = s.bytes_since_last_index + n;
    }

-- An index entry is due for the first record and after `index_interval` bytes.
unfoldable pub index_due : Segment → Bool
index_due s = entries s.index == 0 || leb s.index_interval s.bytes_since_last_index

unfoldable pub indexed : Segment → ℕ → Option IndexError × Index → Segment × Reply ℕ
indexed s offset (some e, i) = (record s { index = i }, failed (index_failed e))
indexed s offset (none, i) = (
  record s { index = i; bytes_since_last_index = 0; next_offset = s.next_offset + 1 },
  done offset,
)

-- Behind a successful encode.
unfoldable pub finish_append : Segment → ℕ → ℕ → Segment × Reply ℕ
unfolding index_due indexed
finish_append s offset position =
    if index_due s
    then indexed s offset (Index.append s.index ((offset - s.base_offset) % 2 ^ 32) position)
    else (record s { next_offset = s.next_offset + 1 }, done offset)

pub encoded : Segment → Result (Unit {0}) × Bytes → Segment × Reply ℕ
unfolding wrote finish_append
encoded s (err e, w) = (s, failed (encode_failed e))
encoded s (ok u, w) = finish_append (wrote s w) s.next_offset (s.bytes_written % 2 ^ 32)

-- Append gives the record the next offset.
unfoldable pub append : Segment → Record → Segment × Reply ℕ
unfolding encoded
append s rec =
    if s.closed
    then (s, failed segment_closed)
    else if ltb max_uint32 s.bytes_written
    then (s, failed position_overflow)
    else encoded s (encode (record rec { offset = pos s.next_offset }) s.written)

-- FlushWriter
unfoldable pub flush_writer : Segment → Segment × Reply (Unit {0})
flush_writer s =
    if s.closed
    then (s, failed segment_closed)
    else (record s { flushed = length s.written }, done tt)

-- What the section reader of readHandle sees from a position on.
pub view_from : Segment → ℕ → Bytes
view_from s position = drop position (take s.bytes_written (take s.flushed s.written))

-- The errors of DecodeRecord as the readers report them: the end of the data is "not found".
decode_error : Error → SegmentError
decode_error eof = offset_not_found
decode_error unexpected_eof = offset_not_found
decode_error e = decode_failed e

-- A record's offset against the one that is looked for.
pub same_offset : ℤ → ℤ → Bool
same_offset a b = leb_ℤ a b && leb_ℤ b a

-- The loop of scanFrom, for at most `fuel` records; the records that are left, or are not there.
pub scanned : ℤ → Reply Record → Record → Reply Record
unfolding same_offset
scanned target further rec =
    if same_offset rec.offset target
    then done rec
    else if ltb_ℤ target rec.offset
    then failed offset_not_found
    else further

pub scan_step : ℤ → (Bytes → Reply Record) → Result (Record × ℕ) × Bytes → Reply Record
unfolding decode_error scanned
scan_step target further (err e, rest) = failed (decode_error e)
scan_step target further (ok r, rest) = scanned target (further rest) r.0

pub scan : ℕ → Bytes → ℤ → Reply Record
unfolding scan_step
scan zero s target = failed offset_not_found
scan (suc fuel) s target = scan_step target (λ rest. scan fuel rest target) (decode_record s)

-- A record takes a byte at least, so the number of bytes is fuel enough.
pub scan_from : Segment → ℕ → ℤ → Reply Record
unfolding view_from scan
scan_from s position target =
    scan (suc (length (view_from s position))) (view_from s position) target

pub read_step : ℤ → Reply Record → Result (Record × ℕ) × Bytes → Reply Record
unfolding decode_error same_offset
read_step target scanning (err e, rest) = failed (decode_error e)
read_step target scanning (ok r, rest) =
    if same_offset r.0.offset target then done r.0 else scanning

-- A record at the position with another offset is no match: the scan goes on from there.
pub read_at : Segment → ℕ → ℤ → Reply Record
unfolding read_step scan_from
read_at s position target =
    read_step target (scan_from s position target) (decode_record (view_from s position))

pub looked_up : Segment → ℤ → Answer → Reply Record
unfolding read_at scan_from
looked_up s target (lookup_failed e) = failed (index_failed e)
looked_up s target (answer position true) = read_at s position target
looked_up s target (answer position false) = scan_from s position target

-- Read. No offset is negative, so a negative one lies below the base.
unfoldable pub read : Segment → ℤ → Reply Record
unfolding looked_up
read s (negsuc k) = failed (if s.closed then segment_closed else offset_out_of_range)
read s (pos offset) =
    if s.closed
    then failed segment_closed
    else if ltb offset s.base_offset
    then failed offset_out_of_range
    else looked_up s (pos offset) (lookup s.index ((offset - s.base_offset) % 2 ^ 32))

-- IsFull
unfoldable pub is_full : Segment → Bool
is_full s =
    s.closed || leb s.max_bytes s.bytes_written || ltb s.index.max_size (s.index.size + entry_size)
