-- ===== src/Storage/Log/ReadFrom/Only.antt =====
-- ReadFrom on a log of one segment.
use mini_kafka.Prelude.{
  ℕ, ◌+◌, ◌^◌, ◌<◌, ◌≡◌, refl, ap, ◌∙◌, false, Bool, none, some, List, [], length, drop,
  le→ltb_false, arith, if◌then◌else◌,
}
use mini_kafka.Prelude.Int.{pos, ltb_ℤ, leb_ℤ}
use mini_kafka.Storage.Record.{Record, max_record_size}
use mini_kafka.Storage.Index.{Entry}
use mini_kafka.Storage.Segment.{Segment, offset_out_of_range, flush_writer}
use mini_kafka.Storage.Segment.Contents.{Holds}
use mini_kafka.Storage.Segment.ReadFrom.{complete}
use mini_kafka.Storage.Segment.ReadFrom
use mini_kafka.Storage.Segment.ReadFrom.Within.{within}
use mini_kafka.Storage.Log.{Log, log_closed, segment_failed, segments, base_at}
use mini_kafka.Storage.Log.Read.{flush_writer-open}
use mini_kafka.Storage.Log.ReadFrom.{Found, behind, walk, walk_active, read_from, with_active}
use mini_kafka.Storage.Log.ReadFrom.Next.{remaining-pos, behind-last, segment_read, flushed-Holds}

-- The log is one segment, which holds the records.
pub record IsOnly (l : Log) (ys : List Record) : Type 0 where
  pub alone : l.sealed ≡ []
  pub is_open : l.closed ≡ false
  pub slots : List Entry
  pub count : ℕ
  pub holds : Holds l.active ys slots count

abbrev pub flushed_log : Log → Log
flushed_log l = record l { active = record l.active { flushed = length l.active.written } }

pub flushed_log-IsOnly : (l : Log) (ys : List Record) → IsOnly l ys → IsOnly (flushed_log l) ys
flushed_log-IsOnly l ys o = record {
  alone = o.alone;
  is_open = o.is_open;
  slots = o.slots;
  count = o.count;
  holds = flushed-Holds l.active ys o.slots o.count o.holds;
}

module _ (l : Log) (ys : List Record) (o : IsOnly l ys) (k b : ℕ) (positive : 0 < b)
    (small : b + max_record_size < 2 ^ 31) where
  abbrev offset : ℕ
  offset = l.active.base_offset + k

  walked :
      walk [] l.active (pos b) offset (pos 0) []
      ≡ ((flushed_log l).active, (within b 0 (drop k ys), none))
  unfolding walk walk_active
  walked =
      ap
        (λ c.
          if c
          then (l.active, ([], none))
          else walk_active offset (pos b) (pos 0) [] (flush_writer l.active))
        (le→ltb_false offset l.active.base_offset (omega arith))
      ∙ ap (walk_active offset (pos b) (pos 0) []) (flush_writer-open l.active o.holds.is_open)
      ∙ ap
          (behind offset (pos b) (pos 0) [] (flushed_log l).active
            (λ sum out. ((flushed_log l).active, (out, none))) (flushed_log l).active)
          (ap (ReadFrom.read_from (flushed_log l).active (pos offset))
              (remaining-pos b 0 (omega arith) (omega arith) ∙ ap pos (omega arith))
            ∙ segment_read (flushed_log l).active ys o.slots o.count k b
                (flushed-Holds l.active ys o.slots o.count o.holds) refl positive small)
      ∙ behind-last offset (pos b) (pos 0) [] (flushed_log l).active (flushed_log l).active
          (within b 0 (drop k ys))

  abbrev guards : Bool → Log × Found
  guards closed =
      if closed
      then (l, ([], some log_closed))
      else if leb_ℤ (pos b) (pos 0)
      then (l, ([], none))
      else if ltb_ℤ (pos offset) (pos (base_at (segments l) 0))
      then (l, ([], some (segment_failed offset_out_of_range)))
      else with_active l (walk l.sealed l.active (pos b) offset (pos 0) [])

  guarded :
      (ss : List Segment)
      → l.sealed ≡ ss
      → ss ≡ []
      → guards false ≡ with_active l (walk [] l.active (pos b) offset (pos 0) [])
  guarded ss e f = rw (e ∙ f, some_budget, not_below) refl
    where
      some_budget : leb_ℤ (pos b) (pos 0) ≡ false
      some_budget = ground arith

      not_below : ltb_ℤ (pos offset) (pos l.active.base_offset) ≡ false
      not_below = ground arith

  -- With a positive budget that lies more than 1 MiB below 2^31, the records from the number k on
  -- that fit, or the first of them.
  pub read_from-only :
      read_from l (pos (l.active.base_offset + k)) (pos b)
      ≡ (flushed_log l, (within b 0 (drop k ys), none))
  unfolding read_from
  read_from-only = ap guards o.is_open ∙ guarded l.sealed refl o.alone ∙ ap (with_active l) walked
