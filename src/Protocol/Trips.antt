-- ===== src/Protocol/Trips.antt =====
-- When a writer and a reader fit: what the writer appends, the reader takes off again, whatever
-- stands before and behind it.
use mini_kafka.Prelude.{◌≡◌, refl, ap, [], ◌++◌}
use mathlib.Core.List.{append-nil, append_assoc}
use mini_kafka.Protocol.Stream.{ok, Bytes, Reader, Writer, pure, ◌>>=◌, ◌>>◌, skip}

pub record Trips {A : Type 0} (p : Writer) (g : Reader A) (a : A) : Type 0 where
  pub bytes : Bytes
  pub writes : (w : Bytes) → p w ≡ (ok tt, w ++ bytes)
  pub reads : (rest : Bytes) → g (bytes ++ rest) ≡ (ok a, rest)

module _ {A B : Type 0} where
  -- Two writers in a row against a reader that goes on with what the first part gave.
  pub Trips-seq :
      {p q : Writer} {g : Reader A} (k : A → Reader B) (a : A) {b : B}
      → Trips p g a
      → Trips q (k a) b
      → Trips (p >> q) (g >>= k) b
  unfolding ◌>>◌ ◌>>=◌
  Trips-seq k a s t = record {
    bytes = s.bytes ++ t.bytes;
    writes = λ w. rw (s.writes w) (rw (t.writes (w ++ s.bytes)) (rw append_assoc));
    reads = λ rest. rw append_assoc (rw (s.reads (t.bytes ++ rest)) (t.reads rest));
  }

  -- The last writer against a reader that builds its value.
  pub Trips-last :
      {p : Writer} {g : Reader A} (f : A → B) (a : A)
      → Trips p g a
      → Trips p (g >>= λ x. pure (f x)) (f a)
  unfolding ◌>>=◌ pure
  Trips-last f a t = record {
    bytes = t.bytes;
    writes = t.writes;
    reads = λ rest. rw (t.reads rest);
  }

-- A reader that ends as soon as it has looked at the value.
pub Trips-done :
    {A B : Type 0} {p : Writer} {g : Reader A} (k : A → Reader B) (a : A) {b : B}
    → Trips p g a
    → k a ≡ pure b
    → Trips p (g >>= k) b
unfolding ◌>>=◌ pure
Trips-done k a t e = record {
  bytes = t.bytes;
  writes = t.writes;
  reads = λ rest. rw (t.reads rest) (ap (λ r. r rest) e);
}

pub Trips-skip : {A : Type 0} (a : A) → Trips skip (pure a) a
unfolding skip pure
Trips-skip a = record { bytes = []; writes = λ w. rw append-nil; reads = λ rest. refl }
