-- ===== src/Storage/Log/ReadFrom/Next.antt =====
-- How ReadFrom goes on from a segment to the next.
use mini_kafka.Prelude.{
  ℕ, suc, ◌+◌, ◌-◌, ◌*◌, ◌%◌, ◌^◌, ◌≤◌, ◌<◌, ◌≡◌, refl, ap, ◌∙◌, true, false, ◌&&◌, Bool-cases, inl,
  inr, Option, none, some, List, [], ◌∷◌, ◌++◌, length, drop, ltb, leb, le→ltb_false, arith,
  if◌then◌else◌,
}
use mini_kafka.Prelude.Int.{ℤ, pos, ltb_ℤ, leb_ℤ, wrap, signed, signed-small, ◌-ℤ◌, add_wrapped-pos}
use mathlib.Core.Path.{subst}
use mini_kafka.Storage.Record.{Record, encoded_size, max_record_size}
use mini_kafka.Storage.Index.{Entry}
use mini_kafka.Storage.Segment.{Segment, done, offset_out_of_range, flush_writer}
use mini_kafka.Storage.Segment.Contents.{Holds, IsRun}
use mini_kafka.Storage.Segment.Flush.{flush_writer-Flushed}
use mini_kafka.Storage.Segment.ReadFrom.{Batch, complete}
use mini_kafka.Storage.Segment.ReadFrom
use mini_kafka.Storage.Segment.ReadFrom.Within.{within, read_from-within}
use mini_kafka.Storage.Log.{Log, LogError, log_closed, segment_failed, segments, base_at}
use mini_kafka.Storage.Log.Read.{flush_writer-open}
use mini_kafka.Storage.Log.ReadFrom.{
  add_sizes, behind, remaining, walk, walk_active, read_from, with_active,
}

-- The sizes of the records together.
abbrev pub sizes : List Record → ℕ
sizes [] = 0
sizes (r ∷ rs) = encoded_size r + sizes rs

pub remaining-pos : (b sum : ℕ) → sum ≤ b → b < 2 ^ 31 → remaining (pos b) (pos sum) ≡ pos (b - sum)
unfolding remaining wrap ◌-ℤ◌
remaining-pos b sum le small =
    rw not_above (ap (signed (2 ^ 31)) same_number ∙ signed-small (2 ^ 31) (b - sum) (omega arith))
  where
    not_above : leb (0 + sum) (b + 0) ≡ true
    not_above = ground arith

    same_number : (b + 0 - (0 + sum)) % (2 * 2 ^ 31) ≡ b - sum
    same_number = omega arith

add_sizes-pos :
    (sum : ℕ) (rs : List Record)
    → sum + sizes rs < 2 ^ 31
    → add_sizes (pos sum) rs ≡ pos (sum + sizes rs)
unfolding add_sizes
add_sizes-pos sum [] h = ap pos (omega arith)
add_sizes-pos sum (r ∷ rs) h =
    ap (λ z. add_sizes z rs) (add_wrapped-pos (2 ^ 31) sum (encoded_size r) (omega arith))
    ∙ add_sizes-pos (sum + encoded_size r) rs (omega arith)
    ∙ ap pos (omega arith)

-- The records that are taken are within the budget, or are one record.
sizes-within :
    (budget taken offset : ℕ) (rs : List Record)
    → IsRun offset rs
    → taken ≤ budget + max_record_size
    → taken + sizes (within budget taken rs) ≤ budget + max_record_size
sizes-within budget taken offset [] run h = omega arith
sizes-within budget taken offset (r ∷ rs) (v, e, run) h =
    elim (Bool-cases (ltb 0 taken && ltb budget (taken + encoded_size r))) [
      | inl spent ↦ rw spent (omega arith)
      | inr fits ↦ rw fits (
          let rest =
            sizes-within budget (taken + encoded_size r) (suc offset) rs run
              (let f = v.fits in ground arith) in
          omega arith)
    ]

-- Records that a segment has given, with the sum before them.
behind-complete :
    (offset b sum : ℕ) (out : List Record) (active s : Segment)
    (further : ℤ → List Record → Segment × (List Record × Option LogError)) (rs : List Record)
    → sum + sizes rs < b
    → b < 2 ^ 31
    → offset < s.next_offset
    → behind offset (pos b) (pos sum) out active further s (done (complete rs))
      ≡ further (pos (sum + sizes rs)) (out ++ rs)
unfolding behind
behind-complete offset b sum out active s further rs lt small above =
    rw (add_sizes-pos sum rs (omega arith), goes_on, not_last) refl
  where
    goes_on : leb_ℤ (pos b) (pos (sum + sizes rs)) ≡ false
    goes_on = ground arith

    not_last : leb s.next_offset offset ≡ false
    not_last = ground arith

-- The last segment ends the reading in any case.
pub behind-last :
    (offset : ℕ) (b sum : ℤ) (out : List Record) (active s : Segment) (rs : List Record)
    → behind offset b sum out active (λ sum' out'. (active, (out', none))) s (done (complete rs))
      ≡ (active, (out ++ rs, none))
unfolding behind
behind-last offset b sum out active s rs = elim (Bool-cases (leb_ℤ b (add_sizes sum rs))) [
  | inl spent ↦ rw spent refl
  | inr budget_left ↦ rw budget_left (elim (Bool-cases (leb s.next_offset offset)) [
    | inl ended ↦ rw ended refl
    | inr more ↦ rw more refl
  ])
]

-- What a segment gives from the record number `k` on.
pub segment_read :
    (s : Segment) (xs : List Record) (m : List Entry) (n k b : ℕ)
    → Holds s xs m n
    → s.flushed ≡ length s.written
    → 0 < b
    → b + max_record_size < 2 ^ 31
    → ReadFrom.read_from s (pos (s.base_offset + k)) (pos b)
      ≡ done (complete (within b 0 (drop k xs)))
segment_read s xs m n k b h all positive small =
    read_from-within s xs m n h all b small (s.base_offset + k) positive
    ∙ rw (le→ltb_false (s.base_offset + k) s.base_offset (omega arith))
        (ap (λ j. done (complete (within b 0 (drop j xs)))) place)
  where
    place : s.base_offset + k - s.base_offset ≡ k
    place = omega arith

pub flushed-Holds :
    (s : Segment) (xs : List Record) (m : List Entry) (n : ℕ)
    → Holds s xs m n
    → Holds (record s { flushed = length s.written }) xs m n
flushed-Holds s xs m n h =
    subst (λ p. Holds p.0 xs m n) (flush_writer-open s h.is_open)
      (flush_writer-Flushed s xs m n h).holds

module _ (l : Log) (s : Segment) (xs ys : List Record) (m m' : List Entry) (n n' : ℕ)
    (one_sealed : l.sealed ≡ s ∷ []) (is_open : l.closed ≡ false) (h : Holds s xs m n)
    (h' : Holds l.active ys m' n') (all : s.flushed ≡ length s.written)
    (next : l.active.base_offset ≡ s.next_offset) (k b : ℕ) (inside : k < length xs)
    (positive : 0 < b) (small : b + max_record_size < 2 ^ 31) where
  -- What the first segment gives.
  abbrev pub first : List Record
  first = within b 0 (drop k xs)

  abbrev offset : ℕ
  offset = s.base_offset + k

  first_read : ReadFrom.read_from s (pos offset) (remaining (pos b) (pos 0)) ≡ done (complete first)
  first_read =
      ap (ReadFrom.read_from s (pos offset))
        (remaining-pos b 0 (omega arith) (omega arith) ∙ ap pos (omega arith))
      ∙ segment_read s xs m n k b h all positive small

  active' : Segment
  active' = record l.active { flushed = length l.active.written }

  active_read :
      sizes first < b
      → walk [] l.active (pos b) s.next_offset (pos (sizes first)) first ≡ (
        record l.active { flushed = length l.active.written },
        (first ++ within (b - sizes first) 0 ys, none),
      )
  unfolding walk walk_active active'
  active_read lt =
      ap
        (λ c.
          if c
          then (l.active, (first, none))
          else walk_active s.next_offset (pos b) (pos (sizes first)) first (flush_writer l.active))
        (le→ltb_false s.next_offset l.active.base_offset (omega (arith, next)))
      ∙ ap (walk_active s.next_offset (pos b) (pos (sizes first)) first)
          (flush_writer-open l.active h'.is_open)
      ∙ ap
          (behind s.next_offset (pos b) (pos (sizes first)) first active'
            (λ sum out. (active', (out, none))) active')
          (ap (ReadFrom.read_from active' (pos s.next_offset))
              (remaining-pos b (sizes first) (omega arith) (omega arith))
            ∙ ap (λ o. ReadFrom.read_from active' (pos o) (pos (b - sizes first))) (at_base)
            ∙ segment_read active' ys m' n' 0 (b - sizes first) (flushed-Holds l.active ys m' n' h')
                refl (omega arith) (omega arith))
      ∙ behind-last s.next_offset (pos b) (pos (sizes first)) first active' active'
          (within (b - sizes first) 0 ys)
    where
      at_base : s.next_offset ≡ l.active.base_offset + 0
      at_base = omega (arith, next)

  guarded :
      read_from l (pos offset) (pos b)
      ≡ with_active l (walk l.sealed l.active (pos b) offset (pos 0) [])
  unfolding read_from
  guarded =
      ap
        (λ c.
          if c
          then (l, ([], some log_closed))
          else if leb_ℤ (pos b) (pos 0)
          then (l, ([], none))
          else if ltb_ℤ (pos offset) (pos (base_at (segments l) 0))
          then (l, ([], some (segment_failed offset_out_of_range)))
          else with_active l (walk l.sealed l.active (pos b) offset (pos 0) []))
        is_open
      ∙ ap
          (λ c.
            if c
            then (l, ([], none))
            else if ltb_ℤ (pos offset) (pos (base_at (segments l) 0))
            then (l, ([], some (segment_failed offset_out_of_range)))
            else with_active l (walk l.sealed l.active (pos b) offset (pos 0) []))
          some_budget
      ∙ ap
          (λ c.
            if c
            then (l, ([], some (segment_failed offset_out_of_range)))
            else with_active l (walk l.sealed l.active (pos b) offset (pos 0) []))
          in_range
    where
      some_budget : leb_ℤ (pos b) (pos 0) ≡ false
      some_budget = ground arith

      first_base : base_at (segments l) 0 ≡ s.base_offset
      first_base = ap (λ ss. base_at (ss ++ l.active ∷ []) 0) one_sealed

      in_range : ltb_ℤ (pos offset) (pos (base_at (segments l) 0)) ≡ false
      in_range = rw first_base (ground arith)

  walked :
      sizes first < b
      → walk (s ∷ []) l.active (pos b) offset (pos 0) []
        ≡ walk [] l.active (pos b) s.next_offset (pos (sizes first)) first
  unfolding walk
  walked lt =
      rw (not_active, not_below, first_read)
        (behind-complete offset b 0 [] l.active s
            (λ sum out. walk [] l.active (pos b) s.next_offset sum out) first (omega arith)
            (omega arith) (omega (arith, h.next))
          ∙ ap (λ t. walk [] l.active (pos b) s.next_offset (pos t) first) (omega arith))
    where
      not_active : leb l.active.base_offset offset ≡ false
      not_active = let e = h.next in ground (arith, next)

      not_below : ltb offset s.base_offset ≡ false
      not_below = le→ltb_false offset s.base_offset (omega arith)

  -- On an open log of a flushed sealed segment with the records xs and the active segment behind it
  -- with the records ys, with a positive budget that lies more than 1 MiB below 2^31, a ReadFrom of
  -- the offset of record number k of xs flushes the active segment; if the records from there on
  -- that are within the budget, or the first of them, do not use it up, they are followed at once
  -- by the first records of ys that are within the rest of the budget, or the very first: also
  -- where records of xs between them did not fit.
  pub read_from-next :
      sizes first < b
      → read_from l (pos offset) (pos b) ≡ (
        record l { active = record l.active { flushed = length l.active.written } },
        (first ++ within (b - sizes first) 0 ys, none),
      )
  read_from-next lt =
      guarded
      ∙ ap (λ ss. with_active l (walk ss l.active (pos b) offset (pos 0) [])) one_sealed
      ∙ ap (with_active l) (walked lt ∙ active_read lt)
