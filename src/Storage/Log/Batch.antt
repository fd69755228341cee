-- ===== src/Storage/Log/Batch.antt =====
-- internal/storage/log.go: a batch against the list of records.
use mini_kafka.Prelude.{
  ℕ, suc, ◌+◌, ◌≡◌, refl, sym, ap, ◌∙◌, Option, none, List, [], ◌∷◌, ◌++◌, All, length,
  length-append, arith,
}
use mathlib.Core.Path.{subst}
use mathlib.Core.List.{append_assoc, append-nil}
use mini_kafka.Storage.Record.{Record}
use mini_kafka.Storage.Record.RoundTrip.{IsRecord}
use mini_kafka.Storage.Log.{
  Log, LogError, LogReply, returned, append_batch, batch_rest, append_rotated, batch_step,
  maybe_rotate,
}
use mini_kafka.Storage.Log.Contents.{LogHolds}
use mini_kafka.Storage.Log.Rotate.{maybe_rotate-Rotated}
use mini_kafka.Storage.Log.Append.{at_offset, Logged, append_rotated-Logged}

-- The records as the log stores them, from the offset `offset` on.
abbrev pub stamped_from : ℕ → List Record → List Record
stamped_from offset [] = []
stamped_from offset (rec ∷ recs) = at_offset offset rec ∷ stamped_from (suc offset) recs

-- What a batch does to a log that holds `rs`: it replies with `base`, and no error.
pub record LoggedAll (lowest base : ℕ) (rs : List Record) (out : Log × (ℕ × Option LogError))
    : Type 0 where
  pub first : out.1.0 ≡ base
  pub no_error : out.1.1 ≡ none
  pub holds : LogHolds out.0 lowest rs

batch_step-replied :
    (base offset : ℕ) (further : ℕ → Log × (ℕ × Option LogError)) (out : Log × LogReply ℕ)
    → out.1 ≡ returned offset
    → batch_step base further out ≡ further offset
unfolding batch_step
batch_step-replied base offset further (l, returned o) e = ap further (cc)
batch_step-replied base offset further (l, LogReply.log_failed x) e = cc

batch_rest-LoggedAll :
    (recs : List Record) (l : Log) (now lowest base : ℕ) (rs : List Record)
    → LogHolds l lowest rs
    → All IsRecord (stamped_from (lowest + length rs) recs)
    → LoggedAll lowest base
        (rs ++ stamped_from (lowest + length rs) recs)
        (batch_rest l now base recs)
unfolding batch_rest
batch_rest-LoggedAll [] l now lowest base rs h v = record {
  first = refl;
  no_error = refl;
  holds = rw append-nil h;
}
batch_rest-LoggedAll (rec ∷ recs) l now lowest base rs h (v, vs) =
    subst (LoggedAll lowest base _) (sym (batch_step-replied base _ _ _ g.replied)) (
      subst (λ zs. LoggedAll lowest base zs (batch_rest out.0 now base recs)) same
        (batch_rest-LoggedAll recs out.0 now lowest base _ g.holds
          (subst (λ o. All IsRecord (stamped_from o recs)) (sym grown) vs)))
  where
    out : Log × LogReply ℕ
    out = append_rotated rec (maybe_rotate l now)

    g : Logged lowest rs rec (append_rotated rec (maybe_rotate l now))
    g = append_rotated-Logged l lowest rs rec _ v (maybe_rotate-Rotated l now lowest rs h)

    grown :
        lowest + length (rs ++ at_offset (lowest + length rs) rec ∷ []) ≡ suc (lowest + length rs)
    grown = omega (arith, length-append rs (at_offset (lowest + length rs) rec ∷ []))

    same :
        (rs ++ at_offset (lowest + length rs) rec ∷ [])
          ++ stamped_from (lowest + length (rs ++ at_offset (lowest + length rs) rec ∷ [])) recs
        ≡ rs ++ stamped_from (lowest + length rs) (rec ∷ recs)
    same = rw (grown, append_assoc) refl

-- On an open log that holds the records rs from the offset lowest on, with a configuration that
-- allows an index entry and positions of 32 bits, a batch of at least one record, all well formed
-- once stamped, is appended without an error: the offset lowest + length rs of the first record is
-- returned, and the log then holds rs and the batch, stamped with consecutive offsets, over as many
-- segments as the rotations make.
pub append_batch-LoggedAll :
    (l : Log) (now lowest : ℕ) (rs : List Record) (rec : Record) (recs : List Record)
    → LogHolds l lowest rs
    → All IsRecord (stamped_from (lowest + length rs) (rec ∷ recs))
    → LoggedAll lowest
        (lowest + length rs)
        (rs ++ stamped_from (lowest + length rs) (rec ∷ recs))
        (append_batch l now (rec ∷ recs))
unfolding append_batch
append_batch-LoggedAll l now lowest rs rec recs h (v, vs) = simp h.is_open (
    subst (LoggedAll lowest (lowest + length rs) _)
      (batch_step-replied (lowest + length rs) (lowest + length rs)
          (λ _. batch_rest out.0 now (lowest + length rs) recs) out g.replied
        ∙ sym (
            batch_step-replied 0 (lowest + length rs) (λ offset. batch_rest out.0 now offset recs)
              out g.replied))
      (unfold batch_rest in
        batch_rest-LoggedAll (rec ∷ recs) l now lowest (lowest + length rs) rs h (v, vs)))
  where
    out : Log × LogReply ℕ
    out = append_rotated rec (maybe_rotate l now)

    g : Logged lowest rs rec (append_rotated rec (maybe_rotate l now))
    g = append_rotated-Logged l lowest rs rec _ v (maybe_rotate-Rotated l now lowest rs h)
