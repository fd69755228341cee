-- ===== src/Broker/Fetch/Committed.antt =====
-- handleFetch of internal/broker/broker.go: the record set of an answer against the high watermark.
use mini_kafka.Prelude.{
  ◌<◌, ◌≡◌, refl, sym, ap, ◌∙◌, Bool, true, false, Bool-cases, inl, inr, ◌⊎◌, ltb, Option, none,
  some, List, [], ◌∷◌, ◌++◌, All, arith, if◌then◌else◌,
}
use mini_kafka.Prelude.Int.{ℤ, leb_ℤ, ◌<ℤ◌, ◌≤ℤ◌}
use mathlib.Core.List.{append-nil, append_assoc}
use mathlib.Core.Path.{subst}
use mini_kafka.Protocol.Stream.{Bytes, Error, record_too_large, Result, ok, err, write, write_fails}
use mini_kafka.Protocol.Requests.Fetch.{FetchRequestPartition}
use mini_kafka.Protocol.Responses.Fetch.{FetchResponsePartition}
use mini_kafka.Server.Handler.{err_none, err_unknown}
use mini_kafka.Storage.Record.{Record, encode, encoded_size, image, max_record_size}
use mini_kafka.Storage.Segment.Contents.{log_bytes}
use mini_kafka.Storage.Log.{LogError}
use mini_kafka.Storage.Log.ReadFrom.{Found}
use mini_kafka.Broker.Partition.{Partition, read_from}
use mini_kafka.Broker.State.{Broker, find_partition}
use mini_kafka.Broker.Fetch
use mini_kafka.Broker.Fetch.{
  read_and_show, fetch_at, encode_visible, encode_rest, fetched, fetch_found, fetch_partition,
  is_eof,
}

-- What Encode of a record leaves in a buffer; a record that is too large leaves it as it was.
encode-image_or_err :
    (r : Record) (buf : Bytes)
    → (encode r buf ≡ (ok tt, buf ++ image r))
      ⊎ ((max_record_size < encoded_size r) × ((e : Error) × (encode r buf ≡ (err e, buf))))
unfolding encode write_fails write
encode-image_or_err r buf = elim (Bool-cases (ltb max_record_size (encoded_size r))) [
  | inl large ↦ inr (ground arith, (record_too_large, rw large refl))
  | inr fits ↦ inl (rw fits refl)
]

-- The records up to the first that is at or above the high watermark.
abbrev pub committed : ℤ → List Record → List Record
committed hw [] = []
committed hw (r ∷ rs) = let rest = committed hw rs in if leb_ℤ hw r.offset then [] else r ∷ rest

committed-below : (hw : ℤ) (rs : List Record) → All (λ r. r.offset <ℤ hw) (committed hw rs)
committed-below hw [] = tt
committed-below hw (r ∷ rs) = elim (Bool-cases (leb_ℤ hw r.offset)) [
  | inl reached ↦ simp reached tt
  | inr below ↦ simp below (ground arith, committed-below hw rs)
]

-- One of the records is too large to be encoded.
abbrev pub HasLarge : List Record → Type 0
HasLarge [] = ⊥
HasLarge (r ∷ rs) = (max_record_size < encoded_size r) ⊎ HasLarge rs

-- The loop gives the bytes of all of them, or fails at one that is too large.
abbrev Gains : List Record → Bytes → Result (Unit {0}) × Bytes → Type 0
Gains rs buf out =
    (out ≡ (ok tt, buf ++ log_bytes rs)) ⊎ (HasLarge rs × ((e : Error) × (out.0 ≡ err e)))

Gains-none : (buf : Bytes) → Gains [] buf (ok tt, buf)
Gains-none buf = inl (ap (λ bs. (ok tt, bs)) (sym (append-nil buf)))

Gains-more :
    (r : Record) (rs : List Record) (buf : Bytes) (out : Result (Unit {0}) × Bytes)
    → Gains rs (buf ++ image r) out
    → Gains (r ∷ rs) buf out
Gains-more r rs buf out (inl same) =
    inl (same ∙ ap (λ bs. (ok tt, bs)) (append_assoc buf (image r) (log_bytes rs)))
Gains-more r rs buf out (inr (large, failed)) = inr (inr large, failed)

encode_rest-Gains :
    (r : Record) (rs : List Record) (buf : Bytes) (further : Bytes → Result (Unit {0}) × Bytes)
    → Gains rs (buf ++ image r) (further (buf ++ image r))
    → Gains (r ∷ rs) buf (encode_rest (encode r buf) further)
encode_rest-Gains r rs buf further h = elim (encode-image_or_err r buf) [
  | inl fits ↦
      subst (λ o. Gains (r ∷ rs) buf (encode_rest o further)) (sym fits)
        (Gains-more r rs buf (further (buf ++ image r)) h)
  | inr (large, (e, same)) ↦
      subst (λ o. Gains (r ∷ rs) buf (encode_rest o further)) (sym same)
        (inr (inl large, (e, refl)))
]

encode_visible-Gains :
    (hw : ℤ) (rs : List Record) (buf : Bytes)
    → Gains (committed hw rs) buf (encode_visible hw rs buf)
unfolding encode_visible
encode_visible-Gains hw [] buf = Gains-none buf
encode_visible-Gains hw (r ∷ rs) buf = elim (Bool-cases (leb_ℤ hw r.offset)) [
  | inl reached ↦ simp reached (Gains-none buf)
  | inr below ↦ simp below (
      encode_rest-Gains r (committed hw rs) buf (encode_visible hw rs)
        (encode_visible-Gains hw rs (buf ++ image r)))
]

-- A read that fails with another error than the end of the file.
abbrev pub Fails : Option LogError → Type 0
Fails none = ⊥
Fails (some e) = is_eof e ≡ false

-- The answer shows just the committed records of what was read, or the read or an encoding fails.
abbrev pub Shows : ℤ → Found → FetchResponsePartition → Type 0
Shows hw found out =
    ((out.error_code ≡ err_none) × (out.record_set ≡ log_bytes (committed hw found.0)))
    ⊎ ((out.error_code ≡ err_unknown)
        × (out.record_set ≡ [])
        × (Fails found.1 ⊎ HasLarge (committed hw found.0)))

encoded-Shows :
    (p : Partition) (id : ℤ) (found : Found) (out : Result (Unit {0}) × Bytes)
    → Gains (committed p.high_watermark found.0) [] out
    → Shows p.high_watermark found (Fetch.encoded id p out)
unfolding Fetch.encoded fetched
encoded-Shows p id found (err e, buf) (inl same) = cc
encoded-Shows p id found (err e, buf) (inr (large, failed)) = inr (refl, refl, inr large)
encoded-Shows p id found (ok u, buf) (inl same) = inl (refl, ap (λ o. o.1) same)
encoded-Shows p id found (ok u, buf) (inr (large, (e, failed))) = cc

shown-Shows :
    (p : Partition) (id : ℤ) (found : Found)
    → Shows p.high_watermark found (Fetch.shown id p found.0)
unfolding Fetch.shown
shown-Shows p id found =
    encoded-Shows p id found (encode_visible p.high_watermark found.0 [])
      (encode_visible-Gains p.high_watermark found.0 [])

ended-Shows :
    (p : Partition) (id : ℤ) (rs : List Record) (e : LogError) (end : Bool)
    → is_eof e ≡ end
    → Shows p.high_watermark
        (rs, some e)
        (if end then Fetch.shown id p rs else fetched id p err_unknown [])
unfolding fetched
ended-Shows p id rs e true same = shown-Shows p id (rs, some e)
ended-Shows p id rs e false failed = inr (refl, refl, inl failed)

fetch_found-Shows :
    (p : Partition) (id : ℤ) (found : Found) → Shows p.high_watermark found (fetch_found id p found)
unfolding fetch_found fetched
fetch_found-Shows p id (rs, none) = shown-Shows p id (rs, none)
fetch_found-Shows p id (rs, some e) = ended-Shows p id rs e (is_eof e) refl

encoded-high_watermark :
    (p : Partition) (id : ℤ) (out : Result (Unit {0}) × Bytes)
    → (Fetch.encoded id p out).high_watermark ≡ p.high_watermark
unfolding Fetch.encoded fetched
encoded-high_watermark p id (err e, buf) = refl
encoded-high_watermark p id (ok u, buf) = refl

fetch_found-high_watermark :
    (p : Partition) (id : ℤ) (found : Found)
    → (fetch_found id p found).high_watermark ≡ p.high_watermark
unfolding fetch_found Fetch.shown fetched
fetch_found-high_watermark p id (rs, none) = encoded-high_watermark p id _
fetch_found-high_watermark p id (rs, some e) = elim (Bool-cases (is_eof e)) [
  | inl end ↦ rw end (encoded-high_watermark p id _)
  | inr failed ↦ rw failed refl
]

-- The answer to a fetch of a partition: no record from the high watermark on; below it, what is
-- committed of the records that ReadFrom gives, unless the read or an encoding fails.
pub record Committed (p : Partition) (req : FetchRequestPartition) (out : FetchResponsePartition)
    : Type 0 where
  pub high_watermark : out.high_watermark ≡ p.high_watermark
  pub below :
      All
        (λ r. r.offset <ℤ p.high_watermark)
        (committed p.high_watermark (read_from p req.fetch_offset req.max_bytes).1.0)
  pub shows :
      ((p.high_watermark ≤ℤ req.fetch_offset) × (out.error_code ≡ err_none) × (out.record_set ≡ []))
      ⊎ ((req.fetch_offset <ℤ p.high_watermark)
          × Shows p.high_watermark (read_from p req.fetch_offset req.max_bytes).1 out)

fetch_at-Committed :
    (b : Broker) (topic : Bytes) (req : FetchRequestPartition) (p : Partition)
    → Committed p req (fetch_at topic req b (some p)).1
unfolding fetch_at read_and_show fetched
fetch_at-Committed b topic req p = elim (Bool-cases (leb_ℤ p.high_watermark req.fetch_offset)) [
  | inl beyond ↦ simp beyond (record {
    high_watermark = refl;
    below = committed-below p.high_watermark _;
    shows = inl (ground arith, refl, refl);
  })
  | inr within ↦ simp within (record {
    high_watermark =
        fetch_found-high_watermark p req.partition_id
          (read_from p req.fetch_offset req.max_bytes).1;
    below = committed-below p.high_watermark _;
    shows = inr (
      ground arith,
      fetch_found-Shows p req.partition_id (read_from p req.fetch_offset req.max_bytes).1,
    );
  })
]

-- The answer to a fetch of a partition that is there gives the partition's high watermark. If the
-- offset is at or above it, there are no records and no error. If it is below, then of the records
-- that ReadFrom gives for the offset and the budget, the answer has just the encodings of those up
-- to the first that is at or above the high watermark, all of which are below it; only where the
-- read fails with another error than the end of the file, or one of these records is too large to
-- be encoded, there is the code "unknown" and no record.
pub fetch_partition-Committed :
    (b : Broker) (topic : Bytes) (req : FetchRequestPartition) (p : Partition)
    → find_partition b topic req.partition_id ≡ some p
    → Committed p req (fetch_partition topic b req).1
unfolding fetch_partition
fetch_partition-Committed b topic req p e =
    subst (λ found. Committed p req (fetch_at topic req b found).1) (sym e)
      (fetch_at-Committed b topic req p)
