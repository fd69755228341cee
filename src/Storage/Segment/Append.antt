-- ===== src/Storage/Segment/Append.antt =====
-- Appending to a segment.
use mini_kafka.Prelude.{
  false, Option, ℕ, suc, ◌+◌, ◌-◌, ◌%◌, ◌^◌, ◌≤◌, ◌<◌, ◌≡◌, refl, sym, ap, ◌∙◌, none, some, List,
  [], ◌∷◌, ◌++◌, inl, inr, ◌==◌, length, length-append, take-append, set, length-set, Bool-cases,
  ==_iff, le→ltb_false, arith,
}
use mini_kafka.Prelude.Int.{pos}
use mathlib.Core.Path.{subst}
use mathlib.Core.List.{append-nil}
use mini_kafka.Storage.Record.{Record, image, encoded_size, max_record_size}
use mini_kafka.Storage.Record.RoundTrip.{IsRecord, encode-image, length-image}
use mini_kafka.Storage.Index.{Entry, Index, IndexError, slot, entries}
use mini_kafka.Storage.Index
use mini_kafka.Storage.Index.Invariant.{
  IsValid, IsAbove, append-IsValid, append-is_open, entries-IsValid, slot-set_self, slot-set_ne,
}
use mini_kafka.Storage.Segment.{
  Segment, Reply, done, append, encoded, wrote, finish_append, index_due, indexed, max_uint32,
}
use mini_kafka.Storage.Segment.Contents.{
  Holds, IsRun, IsRun-append, log_bytes, log_bytes-append, length-log_bytes, start_of,
  take-append_small,
}

-- The record that is stored: the given one with the next offset.
abbrev pub stamped : Segment → Record → Record
stamped s rec = record rec { offset = pos s.next_offset }

-- The counters and bytes after the write, with the index and the next offset as they were.
record Written (s : Segment) (rs : List Record) (m : List Entry) (n : ℕ) (s' : Segment) (r : Record)
    : Type 0 where
  is_open : s'.closed ≡ false
  bytes : s'.written ≡ log_bytes (rs ++ r ∷ [])
  size : s'.bytes_written ≡ length s'.written
  next : s'.next_offset ≡ s.next_offset
  base : s'.base_offset ≡ s.base_offset
  bounded : s'.bytes_written ≤ max_uint32 + max_record_size
  index : s'.index ≡ s.index
  limit : s'.max_bytes ≡ s.max_bytes

indexed-none :
    (s : Segment) (offset : ℕ) (p : Option IndexError × Index)
    → p.0 ≡ none
    → indexed s offset p ≡ (
      record s { index = p.1; bytes_since_last_index = 0; next_offset = s.next_offset + 1 },
      done offset,
    )
unfolding indexed
indexed-none s offset (none, i) e = refl
indexed-none s offset (some x, i) e = cc

not_due-entries : (s : Segment) → index_due s ≡ false → 0 < entries s.index
unfolding index_due
not_due-entries s e = ground arith

module _ (s : Segment) (rs : List Record) (m : List Entry) (n : ℕ) (h : Holds s rs m n)
    (rec : Record) (v : IsRecord (stamped s rec)) (room : s.bytes_written ≤ max_uint32) where
  abbrev r : Record
  r = stamped s rec

  pub grown : length (s.written ++ image r) ≡ length s.written + encoded_size r
  grown = rw length-append (ap (λ t. length s.written + t) (length-image r))

  wrote-image : Written s rs m n (wrote s (s.written ++ image r)) r
  unfolding wrote
  wrote-image = record {
    is_open = h.is_open;
    bytes = rw (h.bytes, log_bytes-append rs (r ∷ []), append-nil);
    size = omega (arith, h.size, grown);
    next = refl;
    base = refl;
    bounded = omega (arith, h.size, grown, v.fits);
    index = refl;
    limit = refl;
  }

  number : (s.next_offset - s.base_offset) % 2 ^ 32 ≡ length rs
  number = omega (arith, h.next, h.size, ap length h.bytes, length-log_bytes rs)

  position : s.bytes_written % 2 ^ 32 ≡ length (log_bytes rs)
  position = h_mod ∙ h.size ∙ ap length h.bytes
    where
      h_mod : s.bytes_written % 2 ^ 32 ≡ s.bytes_written
      h_mod = omega arith

  run' : {b : ℕ} → b ≡ s.base_offset → IsRun b (rs ++ r ∷ [])
  run' e =
      subst (λ b. IsRun b (rs ++ r ∷ [])) (sym e)
        (IsRun-append s.base_offset rs r h.run v (ap pos h.next))

  placed' :
      (k : ℕ) → k < n → (slot m k).position ≡ start_of (rs ++ r ∷ []) (slot m k).relative_offset
  placed' k lt =
      h.placed k lt
      ∙ ap (λ t. length (log_bytes t))
          (sym (take-append_small rs (r ∷ []) _ (omega (arith, h.indexed k lt))))

  -- No index entry is due: only the next offset moves.
  not_indexed :
      {s' : Segment}
      → Written s rs m n s' r
      → 0 < n
      → Holds (record s' { next_offset = s'.next_offset + 1 }) (rs ++ r ∷ []) m n
  not_indexed w some_entry = record {
    is_open = w.is_open;
    bytes = w.bytes;
    size = w.size;
    next = omega (arith, w.next, w.base, h.next, length-append rs (r ∷ []));
    run = run' w.base;
    bounded = w.bounded;
    index = rw w.index h.index;
    indexed = λ k lt. omega (arith, h.indexed k lt, length-append rs (r ∷ []));
    placed = placed';
    covered = λ _. some_entry;
  }

  abbrev new_entry : Entry
  new_entry = record { relative_offset = length rs; position = length (log_bytes rs) }

  above : IsAbove m n (length rs)
  above k lt = h.indexed k lt

  slots' : List Entry
  slots' = set m n new_entry

  -- An entry is due: the index gains the new record's place.
  with_entry :
      {s' : Segment} (i : Index)
      → n < length m
      → Written s rs m n s' r
      → IsValid i slots' (suc n)
      → Holds
          (record s' { index = i; bytes_since_last_index = 0; next_offset = s'.next_offset + 1 })
          (rs ++ r ∷ [])
          slots'
          (suc n)
  unfolding slots'
  with_entry i fits w iv = record {
    is_open = w.is_open;
    bytes = w.bytes;
    size = w.size;
    next = omega (arith, w.next, w.base, h.next, length-append rs (r ∷ []));
    run = run' w.base;
    bounded = w.bounded;
    index = iv;
    indexed = λ k lt. elim (Bool-cases (n == k)) [
      | inl last ↦
          subst (λ c. (slot (set m n new_entry) c).relative_offset < length (rs ++ r ∷ []))
            ((==_iff n k).0 last)
            (rw (slot-set_self m n new_entry fits) (omega (arith, length-append rs (r ∷ []))))
      | inr inner ↦
          rw (slot-set_ne m n k new_entry (ground arith))
            (omega (arith, h.indexed k (ground arith), length-append rs (r ∷ [])))
    ];
    placed = λ k lt. elim (Bool-cases (n == k)) [
      | inl last ↦
          subst
            (λ c.
              (slot (set m n new_entry) c).position
              ≡ start_of (rs ++ r ∷ []) (slot (set m n new_entry) c).relative_offset)
            ((==_iff n k).0 last)
            (rw (slot-set_self m n new_entry fits)
              (ap (λ t. length (log_bytes t)) (sym (take-append rs (r ∷ [])))))
      | inr inner ↦ rw (slot-set_ne m n k new_entry (ground arith)) (placed' k (ground arith))
    ];
    covered = λ _. omega arith;
  }

  -- What an append that succeeds leaves, with the index that it leaves.
  pub record Appended (out : Segment × Reply ℕ) : Type 0 where
    pub replied : out.1 ≡ done s.next_offset
    pub base : out.0.base_offset ≡ s.base_offset
    pub limit : out.0.max_bytes ≡ s.max_bytes
    pub file : out.0.index.is_open ≡ s.index.is_open
    pub slots : List Entry
    pub capacity : length slots ≡ length m
    pub count : ℕ
    pub holds : Holds out.0 (rs ++ r ∷ []) slots count

  finish_append-Appended :
      {s' : Segment}
      → n < length m
      → Written s rs m n s' r
      → Appended (finish_append s' s.next_offset (s.bytes_written % 2 ^ 32))
  unfolding finish_append indexed
  finish_append-Appended {s'} fits w = elim (Bool-cases (index_due s')) [
    | inl due ↦
        rw (due, same_call, indexed-none s' s.next_offset call stored.0)
          (record {
            replied = refl;
            base = w.base;
            limit = w.limit;
            file = append-is_open s.index (length rs) (length (log_bytes rs));
            slots = slots';
            capacity = unfold slots' in length-set m n new_entry;
            count = suc n;
            holds = unfold slots' in with_entry call.1 fits w stored.1;
          })
    | inr not_due ↦ rw not_due (record {
      replied = refl;
      base = w.base;
      limit = w.limit;
      file = ap (λ (i : Index). i.is_open) w.index;
      slots = m;
      capacity = refl;
      count = n;
      holds = not_indexed w (some_entry not_due);
    })
  ]
    where
      some_entry : index_due s' ≡ false → 0 < n
      some_entry e =
          omega (arith, not_due-entries s' e, ap entries w.index, entries-IsValid h.index)

      call : Option IndexError × Index
      call = Index.append s.index (length rs) (length (log_bytes rs))

      number' : (s.next_offset - s'.base_offset) % 2 ^ 32 ≡ length rs
      number' = rw w.base number

      same_call :
          Index.append s'.index
            ((s.next_offset - s'.base_offset) % 2 ^ 32)
            (s.bytes_written % 2 ^ 32)
          ≡ call
      same_call = cc (w.index, number', position)

      stored : (call.0 ≡ none) × IsValid call.1 (set m n new_entry) (suc n)
      stored = append-IsValid s.index m n (length rs) (length (log_bytes rs)) h.index fits above

  pub append_lem :
      append s rec
      ≡ finish_append (wrote s (s.written ++ image r)) s.next_offset (s.bytes_written % 2 ^ 32)
  unfolding append encoded
  append_lem =
      simp
        (h.is_open, le→ltb_false max_uint32 s.bytes_written room, encode-image r s.written v.fits)

  -- On an open segment that holds the records rs, with at most 2^32 - 1 bytes written and room in
  -- its index, an append of a record that is well formed once stamped replies with the next offset
  -- and keeps the base offset, and the segment then holds rs and the new record, stamped with that
  -- offset: bytes, counters and index entries agree with the list.
  pub append-Appended : n < length m → Appended (append s rec)
  append-Appended fits = rw append_lem (finish_append-Appended fits wrote-image)
