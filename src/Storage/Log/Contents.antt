-- ===== src/Storage/Log/Contents.antt =====
-- What a log holds: one list of records, cut into the records of its segments.
use mini_kafka.Prelude.{
  ℕ, ◌+◌, ◌^◌, ◌≤◌, ◌<◌, ◌≡◌, refl, sym, ap, ◌∙◌, true, false, List, [], ◌∷◌, ◌++◌, All, length,
  length-append, arith,
}
use mini_kafka.Prelude.Int.{pos_part}
use mathlib.Core.List.{append-nil, append_assoc}
use mini_kafka.Storage.Config.{Config, with_defaults}
use mini_kafka.Storage.Record.{Record}
use mini_kafka.Storage.Index.{Entry, entry_size}
use mini_kafka.Storage.Segment.{Segment}
use mini_kafka.Storage.Segment.Contents.{Holds}
use mini_kafka.Storage.Log.{Log}

-- The segment holds the records, with some slots in its index.
abbrev pub Stored : Segment → List Record → Type 0
Stored s rs = (m : List Entry) × (n : ℕ) × Holds s rs m n

-- The segments hold the records one behind the other, from the offset `base` on.
abbrev pub IsChain : ℕ → List Segment → List Record → Type 0
IsChain base [] rs = rs ≡ []
IsChain base (s ∷ ss) rs =
    (xs : List Record) × (ys : List Record) × (rs ≡ xs ++ ys)
    × (s.base_offset ≡ base)
    × Stored s xs
    × IsChain (base + length xs) ss ys

-- What the configuration must allow: an entry in an index, and positions of 32 bits.
pub record IsUsable (c : Config) : Type 0 where
  pub index_room : entry_size ≤ pos_part (with_defaults c).index_max_bytes
  pub some_bytes : 0 < pos_part (with_defaults c).segment_bytes
  pub positions : pos_part (with_defaults c).segment_bytes ≤ 2 ^ 32

-- The active segment, open for appending.
pub record IsActive (c : Config) (s : Segment) (rs : List Record) : Type 0 where
  pub slots : List Entry
  pub count : ℕ
  pub holds : Holds s rs slots count
  pub capacity : 0 < length slots
  pub limit : s.max_bytes ≡ pos_part (with_defaults c).segment_bytes
  pub file : s.index.is_open ≡ true

-- The log holds just the records `rs`, the first of which has the offset `lowest`.
pub record LogHolds (l : Log) (lowest : ℕ) (rs : List Record) : Type 0 where
  pub is_open : l.closed ≡ false
  pub usable : IsUsable l.config
  pub old : List Record
  pub recent : List Record
  pub all : rs ≡ old ++ recent
  pub chain : IsChain lowest l.sealed old
  pub synced : All (λ s. s.flushed ≡ length s.written) l.sealed
  pub base : l.active.base_offset ≡ lowest + length old
  pub active : IsActive l.config l.active recent

pub IsChain-snoc :
    (base : ℕ) (ss : List Segment) (xs ys : List Record) (s : Segment)
    → IsChain base ss xs
    → s.base_offset ≡ base + length xs
    → Stored s ys
    → IsChain base (ss ++ s ∷ []) (xs ++ ys)
IsChain-snoc base [] xs ys s e b h =
    (ys, [], rw e (sym (append-nil ys)), b ∙ ap (λ t. base + length t) e ∙ omega arith, h, refl)
IsChain-snoc base (t ∷ ss) xs ys s (us, vs, e, f, st, c) b h = (
  us,
  vs ++ ys,
  rw (e, append_assoc) refl,
  f,
  st,
  IsChain-snoc (base + length us) ss vs ys s c b' h,
)
  where
    b' : s.base_offset ≡ base + length us + length vs
    b' = b ∙ omega (arith, ap length e, length-append us vs)

pub All-snoc :
    {A : Type 0} (P : A → Type 0) (xs : List A) (x : A) → All P xs → P x → All P (xs ++ x ∷ [])
All-snoc P [] x h p = (p, tt)
All-snoc P (y ∷ xs) x (q, h) p = (q, All-snoc P xs x h p)
