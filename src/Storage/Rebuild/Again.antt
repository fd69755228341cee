-- ===== src/Storage/Rebuild/Again.antt =====
-- rebuildSegment of internal/storage/log.go: a scan against appending the records again.
use mini_kafka.Prelude.{
  ℕ, ◌+◌, ◌-◌, ◌%◌, ◌^◌, ◌≤◌, ◌<◌, ◌≡◌, refl, sym, ap, ◌∙◌, Bool-cases, inl, inr, Option, none,
  some, List, ◌++◌, length, if◌then◌else◌, arith,
}
use mini_kafka.Prelude.Int.{pos}
use mathlib.Core.Path.{subst}
use mini_kafka.Protocol.Stream.{Bytes}
use mini_kafka.Storage.Record.{Record, image, encoded_size}
use mini_kafka.Storage.Record.RoundTrip.{IsRecord}
use mini_kafka.Storage.Index.{Entry, Index, IndexError}
use mini_kafka.Storage.Index
use mini_kafka.Storage.Segment.{
  Segment, done, append, wrote, finish_append, index_due, indexed, max_uint32,
}
use mini_kafka.Storage.Segment.Contents.{Holds}
use mini_kafka.Storage.Segment.Append.{stamped, grown, append_lem}
use mini_kafka.Storage.Rebuild.{entered, recount}

-- The segment with other bytes, of which the file holds `flushed`.
abbrev pub on_file : Bytes → ℕ → Segment → Segment
on_file bytes flushed s = record s { written = bytes; flushed = flushed }

entered-indexed :
    (s : Segment) (bytes : Bytes) (flushed offset o : ℕ) (p : Option IndexError × Index)
    → s.next_offset ≡ offset
    → (indexed s offset p).1 ≡ done o
    → entered (on_file bytes flushed s) offset p
      ≡ (on_file bytes flushed (indexed s offset p).0, done tt)
unfolding entered indexed
entered-indexed s bytes flushed offset o (none, i) e d = rw e refl
entered-indexed s bytes flushed offset o (some x, i) e d = cc

index_due-on_file :
    (s : Segment) (bytes : Bytes) (flushed : ℕ) → index_due (on_file bytes flushed s) ≡ index_due s
unfolding index_due
index_due-on_file s bytes flushed = refl

-- What an append does behind the write, on the segment as the scan has it.
finished :
    (s : Segment) (bytes : Bytes) (flushed offset number position o : ℕ)
    → s.next_offset ≡ offset
    → number ≡ (offset - s.base_offset) % 2 ^ 32
    → (finish_append s offset position).1 ≡ done o
    → (if index_due (on_file bytes flushed s)
        then entered (on_file bytes flushed s) offset (Index.append s.index number position)
        else (record (on_file bytes flushed s) { next_offset = offset + 1 }, done tt))
      ≡ (on_file bytes flushed (finish_append s offset position).0, done tt)
unfolding finish_append
finished s bytes flushed offset number position o e k d = elim (Bool-cases (index_due s)) [
  | inl due ↦
      rw (index_due-on_file s bytes flushed, due, k)
        (entered-indexed s bytes flushed offset o
          (Index.append s.index ((offset - s.base_offset) % 2 ^ 32) position) e (rw due at d))
  | inr not_due ↦ rw (index_due-on_file s bytes flushed, not_due, e) refl
]

module _ (a : Segment) (rs : List Record) (m : List Entry) (n : ℕ) (h : Holds a rs m n)
    (rec : Record) (v : IsRecord rec) (at_next : rec.offset ≡ pos a.next_offset)
    (room : a.bytes_written ≤ max_uint32) (bytes : Bytes) (flushed : ℕ) where
  pub same : stamped a rec ≡ rec
  same = ap (λ o. record rec { offset = o }) (sym at_next)

  pub v' : IsRecord (stamped a rec)
  v' = subst IsRecord (sym same) v

  -- A record of the scan is counted as its append counts it.
  pub recount-append :
      (o : ℕ)
      → a.next_offset < 2 ^ 63
      → a.base_offset ≤ a.next_offset
      → (append a rec).1 ≡ done o
      → recount (on_file bytes flushed a) a.next_offset (encoded_size rec)
        ≡ (on_file bytes flushed (append a rec).0, done tt)
  unfolding recount wrote
  recount-append o small above d =
      ap (recount (on_file bytes flushed a) a.next_offset) counted
      ∙ finished behind bytes flushed a.next_offset _ (a.bytes_written % 2 ^ 32) o refl number
          (ap (λ p. p.1) (sym call) ∙ d)
      ∙ ap (λ p. (on_file bytes flushed p.0, done tt)) (sym call)
    where
      all : Bytes
      all = a.written ++ image (stamped a rec)

      behind : Segment
      behind = wrote a all

      call : append a rec ≡ finish_append behind a.next_offset (a.bytes_written % 2 ^ 32)
      call = append_lem a rs m n h rec v' room

      counted : encoded_size rec ≡ length all - length a.written
      counted = omega (arith, grown a rs m n h rec v' room, ap encoded_size same)

      number :
          (a.next_offset + (2 ^ 64 - a.base_offset)) % 2 ^ 32
          ≡ (a.next_offset - a.base_offset) % 2 ^ 32
      number = omega arith
