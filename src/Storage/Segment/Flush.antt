-- ===== src/Storage/Segment/Flush.antt =====
-- Flushing a segment's writer, and what a reader sees after an append and a flush.
use mini_kafka.Prelude.{
  ℕ, ◌-◌, ◌≤◌, ◌<◌, ◌≡◌, refl, ap, ◌∙◌, List, [], ◌∷◌, ◌++◌, get_elem?, length, ltb, if◌then◌else◌,
}
use mini_kafka.Prelude.Int.{pos}
use mini_kafka.Storage.Record.{Record}
use mini_kafka.Storage.Record.RoundTrip.{IsRecord}
use mini_kafka.Storage.Index.{Entry}
use mini_kafka.Storage.Segment.{
  Segment, Reply, failed, offset_out_of_range, append, flush_writer, read, max_uint32,
}
use mini_kafka.Storage.Segment.Contents.{Holds}
use mini_kafka.Storage.Segment.Append.{stamped, append-Appended, Appended}
use mini_kafka.Storage.Segment.Read.{found, read-found}

-- What a flush leaves: the same contents, and nothing in the buffer.
pub record Flushed (s t : Segment) (rs : List Record) (m : List Entry) (n : ℕ) : Type 0 where
  pub holds : Holds t rs m n
  pub all : t.flushed ≡ length t.written
  pub base : t.base_offset ≡ s.base_offset
  pub limit : t.max_bytes ≡ s.max_bytes

-- Flushing the writer of an open segment that holds the records rs leaves a segment that holds the
-- same records with the same base offset, and has no byte left in the buffer.
pub flush_writer-Flushed :
    (s : Segment) (rs : List Record) (m : List Entry) (n : ℕ)
    → Holds s rs m n
    → Flushed s (flush_writer s).0 rs m n
unfolding flush_writer
flush_writer-Flushed s rs m n h = rw h.is_open (record {
  holds = record {
    is_open = refl;
    bytes = h.bytes;
    size = h.size;
    next = h.next;
    run = h.run;
    bounded = h.bounded;
    index = h.index;
    indexed = h.indexed;
    placed = h.placed;
    covered = h.covered;
  };
  all = refl;
  base = refl;
  limit = refl;
})

-- On an open segment that holds the records rs, with at most 2^32 - 1 bytes written and room in its
-- index, after an append of a well formed record and a flush of the writer, a read gives the new
-- record at the offset that the segment was to give next, every older record at its own offset,
-- "not found" above them and "out of range" below the base offset.
pub read-append :
    (s : Segment) (rs : List Record) (m : List Entry) (n : ℕ)
    → Holds s rs m n
    → (rec : Record) → IsRecord (stamped s rec)
    → s.bytes_written ≤ max_uint32
    → n < length m
    → (offset : ℕ)
    → read (flush_writer (append s rec).0).0 (pos offset) ≡ (
        if ltb offset s.base_offset
        then failed offset_out_of_range
        else found (get_elem? (rs ++ stamped s rec ∷ []) (offset - s.base_offset)))
read-append s rs m n h rec v room fits offset =
    read-found _ _ _ _ f.holds f.all offset ∙ ap (at_base offset) (f.base ∙ a.base)
  where
    a : Appended s rs m n h rec v room (append s rec)
    a = append-Appended s rs m n h rec v room fits

    at_base : ℕ → ℕ → Reply Record
    at_base o b =
        if ltb o b
        then failed offset_out_of_range
        else found (get_elem? (rs ++ stamped s rec ∷ []) (o - b))

    f :
        Flushed
          (append s rec).0
          (flush_writer (append s rec).0).0
          (rs ++ stamped s rec ∷ [])
          a.slots
          a.count
    f = flush_writer-Flushed _ _ _ _ a.holds
