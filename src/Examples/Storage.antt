-- ===== src/Examples/Storage.antt =====
-- Records, an index and a segment at concrete inputs.
use mini_kafka.Prelude.{
  ℕ, zero, suc, ◌+◌, ◌%◌, ◌^◌, ◌<◌, ◌≡◌, refl, true, false, none, some, List, [], ◌∷◌, ◌++◌, length,
  ◌≢◌, arith, length-append,
}
use mini_kafka.Prelude.Int.{pos, signed}
use mini_kafka.Protocol.Stream.{Bytes, ok, read_full, err, corrupt_record, record_too_large}
use mini_kafka.Protocol.Codec.{be, of_be}
use mini_kafka.Protocol.Trips.{Trips}
use mini_kafka.Storage.Crc32c.{crc32c, crc32c_check}
use mini_kafka.Storage.Record.{Record, encode, decode_record, encoded_size, image}
use mini_kafka.Storage.Record.RoundTrip.{IsRecord, encode_record-Trips, length-image}
use mini_kafka.Storage.Record.Corruption.{
  decode_record-corrupt, decode_record-too_large, payload_of,
}
use mini_kafka.Storage.Index.{Entry, Index, zero_entry, slot, lookup, entries}
use mini_kafka.Storage.Index.Lookup.{IsSorted, Finds, lookup-Finds}
use mini_kafka.Storage.Index.Invariant.{IsValid}
use mini_kafka.Storage.Segment.{Segment, done, append, read}
use mini_kafka.Storage.Segment.Contents.{Holds, log_bytes, start_of}
use mini_kafka.Storage.Segment.Append.{stamped, Appended, append-Appended}
use mini_kafka.Storage.Segment.Read.{read-found}

abbrev first : Record
first = record {
  offset = pos 7;
  timestamp = pos 1700000000;
  attributes = pos 0;
  key = none;
  value = some (104 ∷ 105 ∷ []);
}

abbrev next : Record
next = record first { offset = pos 0; key = some (107 ∷ []) }

first-IsRecord : IsRecord first
unfolding encoded_size
first-IsRecord = record {
  offset = omega arith;
  timestamp = omega arith;
  attributes = omega arith;
  fits = omega arith;
}

encode_record-Trips_example : Trips (encode first) decode_record (first, encoded_size first)
encode_record-Trips_example = encode_record-Trips first first-IsRecord

abbrev nine : Bytes
nine = 49 ∷ 50 ∷ 51 ∷ 52 ∷ 53 ∷ 54 ∷ 55 ∷ 56 ∷ 57 ∷ []

crc_differs : crc32c nine ≢ 0
crc_differs = ground (arith, crc32c_check)

decode_record-corrupt_example :
    decode_record (be 4 ((20 + length nine) % 2 ^ 32) ++ (payload_of 7 8 0 nine ++ []))
    ≡ (err corrupt_record, [])
decode_record-corrupt_example =
    decode_record-corrupt 7 8 0 nine [] (omega arith) (omega arith) (omega arith) crc_differs
      (omega arith) (omega arith)

abbrev entry : ℕ → ℕ → Entry
entry o p = record { relative_offset = o; position = p }

abbrev two_of_three : List Entry
two_of_three = entry 0 0 ∷ entry 40 4100 ∷ zero_entry ∷ []

abbrev some_index : Index
some_index = record { slots = some two_of_three; size = 16; max_size = 24; is_open = true }

two-IsSorted : IsSorted two_of_three 2
two-IsSorted = record { rising = go }
  where
    go :
        (a b : ℕ)
        → a < b
        → b < 2
        → (slot two_of_three a).relative_offset < (slot two_of_three b).relative_offset
    go zero (suc zero) l h = omega arith
    go zero zero l h = absurd (omega arith)
    go (suc a) (suc zero) l h = absurd (omega arith)
    go (suc a) zero l h = absurd (omega arith)
    go a (suc (suc b)) l h = absurd (omega arith)

some_index-IsValid : IsValid some_index two_of_three 2
some_index-IsValid = record {
  mapped = refl;
  size = refl;
  max_size = refl;
  used = omega arith;
  sorted = two-IsSorted;
}

lookup-Finds_example : Finds two_of_three (entries some_index) 39 (lookup some_index 39)
unfolding entries
lookup-Finds_example = lookup-Finds some_index two_of_three 39 refl two-IsSorted

decode_record-too_large_example :
    decode_record (0 ∷ 16 ∷ 0 ∷ 1 ∷ 5 ∷ []) ≡ (err record_too_large, 5 ∷ [])
decode_record-too_large_example =
    decode_record-too_large (0 ∷ 16 ∷ 0 ∷ 1 ∷ 5 ∷ []) (5 ∷ []) (0 ∷ 16 ∷ 0 ∷ 1 ∷ []) read_four
      1048577 is_size (omega arith)
  where
    read_four : read_full 4 (0 ∷ 16 ∷ 0 ∷ 1 ∷ 5 ∷ []) ≡ (ok (0 ∷ 16 ∷ 0 ∷ 1 ∷ []), 5 ∷ [])
    read_four = unfold read_full in refl

    is_size : signed (2 ^ 31) (of_be (0 ∷ 16 ∷ 0 ∷ 1 ∷ [])) ≡ pos 1048577
    is_size = unfold signed of_be in refl

-- A segment that begins at 7 and holds one record, which is indexed.
abbrev one : Segment
one = record {
  base_offset = 7;
  next_offset = 8;
  written = log_bytes (first ∷ []);
  flushed = length (log_bytes (first ∷ []));
  index = record {
    slots = some (zero_entry ∷ zero_entry ∷ []);
    size = 8;
    max_size = 16;
    is_open = true;
  };
  max_bytes = 1000;
  index_interval = 4096;
  bytes_written = length (log_bytes (first ∷ []));
  bytes_since_last_index = 35;
  closed = false;
  created_at = 0;
}

length-one : one.bytes_written ≡ 35
unfolding encoded_size
length-one = omega (arith, length-append (image first) [], length-image first)

one-Holds : Holds one (first ∷ []) (zero_entry ∷ zero_entry ∷ []) 1
one-Holds = record {
  is_open = refl;
  bytes = refl;
  size = refl;
  next = refl;
  run = (first-IsRecord, refl, tt);
  bounded = omega (arith, length-one);
  index = record {
    mapped = refl;
    size = refl;
    max_size = refl;
    used = omega arith;
    sorted = record { rising = λ a b l h. absurd (omega arith) };
  };
  indexed = indexed;
  placed = placed;
  covered = λ _. omega arith;
}
  where
    indexed : (k : ℕ) → k < 1 → (slot (zero_entry ∷ zero_entry ∷ []) k).relative_offset < 1
    indexed zero h = omega arith
    indexed (suc k) h = absurd (omega arith)

    placed :
        (k : ℕ)
        → k < 1
        → (slot (zero_entry ∷ zero_entry ∷ []) k).position
          ≡ start_of (first ∷ []) (slot (zero_entry ∷ zero_entry ∷ []) k).relative_offset
    placed zero h = refl
    placed (suc k) h = absurd (omega arith)

next-IsRecord : IsRecord (stamped one next)
unfolding encoded_size
next-IsRecord = record {
  offset = omega arith;
  timestamp = omega arith;
  attributes = omega arith;
  fits = omega arith;
}

read-found_example : read one (pos 7) ≡ done first
read-found_example = read-found one (first ∷ []) (zero_entry ∷ zero_entry ∷ []) 1 one-Holds refl 7

append-Appended_example :
    Appended one
      (first ∷ [])
      (zero_entry ∷ zero_entry ∷ [])
      1
      one-Holds
      next
      next-IsRecord
      (omega (arith, length-one))
      (append one next)
append-Appended_example =
    append-Appended one (first ∷ []) (zero_entry ∷ zero_entry ∷ []) 1 one-Holds next next-IsRecord
      (omega (arith, length-one)) (omega arith)
