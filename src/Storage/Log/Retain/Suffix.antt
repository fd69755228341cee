-- ===== src/Storage/Log/Retain/Suffix.antt =====
-- runRetention of internal/storage/log.go against the list of records.
use mini_kafka.Prelude.{
  ℕ, ◌+◌, ◌-◌, ◌≤◌, ◌≡◌, ◌⊎◌, refl, sym, ap, ◌∙◌, Bool-cases, inl, inr, Bool, true, false, ◌||◌,
  List, [], ◌∷◌, ◌++◌, All, length, length-append, ltb, ◌==◌, if◌then◌else◌, arith,
}
use mini_kafka.Prelude.Int.{pos, pos_part, ltb_ℤ}
use mathlib.Core.Path.{subst}
use mathlib.Core.List.{append_assoc}
use mini_kafka.Storage.Config.{Config}
use mini_kafka.Storage.Record.{Record}
use mini_kafka.Storage.Segment.{Segment}
use mini_kafka.Storage.Segment.Open
use mini_kafka.Storage.Log.{Log, segments}
use mini_kafka.Storage.Log.Contents.{IsChain, LogHolds}
use mini_kafka.Storage.Log.Retain.{
  outlived, keep_young, total_size, shrink, retain_bytes, run_retention,
}

-- The list ends with the other one.
abbrev EndsWith : List Segment → List Segment → Type 0
EndsWith xs ys = (pre : List Segment) × (xs ≡ pre ++ ys)

-- Older segments stand first.
abbrev pub IsAged : List Segment → Type 0
IsAged [] = Unit {0}
IsAged (s ∷ ss) = All (λ t. s.created_at ≤ t.created_at) ss × IsAged ss

keep_young-all :
    (c : Config) (now : ℕ) (s : Segment) (ss : List Segment)
    → outlived c now s ≡ false
    → All (λ t. s.created_at ≤ t.created_at) ss
    → keep_young c now ss ≡ ss
unfolding keep_young
keep_young-all c now s [] e a = refl
keep_young-all c now s (t ∷ ss) e (le, a) = rw (young, keep_young-all c now s ss e a) refl
  where
    young : outlived c now t ≡ false
    young = unfold outlived in ground arith

keep_young-EndsWith :
    (c : Config) (now : ℕ) (ss : List Segment) → IsAged ss → EndsWith ss (keep_young c now ss)
unfolding keep_young
keep_young-EndsWith c now [] a = ([], refl)
keep_young-EndsWith c now (s ∷ ss) (le, a) =
    let r = keep_young-EndsWith c now ss a in
    elim (Bool-cases (outlived c now s)) [
      | inl old ↦ rw old (s ∷ r.0, ap (λ zs. s ∷ zs) r.1)
      | inr young ↦ rw (young, keep_young-all c now s ss young le) ([], refl)
    ]

-- What is left is within the limit, or nothing is left.
record Shrunk (limit rest : ℕ) (ss out : List Segment) : Type 0 where
  suffix : EndsWith ss out
  within : (out ≡ []) ⊎ (total_size out + rest ≤ limit)

shrink-Shrunk :
    (limit total rest : ℕ) (ss : List Segment)
    → total ≡ total_size ss + rest
    → Shrunk limit rest ss (shrink limit total ss)
unfolding shrink total_size
shrink-Shrunk limit total rest [] e = record { suffix = ([], refl); within = inl refl }
shrink-Shrunk limit total rest (s ∷ ss) e =
    let r = shrink-Shrunk limit (total - Open.size s) rest ss (omega (arith, e)) in
    elim (Bool-cases (ltb limit total)) [
      | inl above ↦
          rw above
            (record { suffix = (s ∷ r.suffix.0, ap (λ zs. s ∷ zs) r.suffix.1); within = r.within })
      | inr below ↦ rw below (record { suffix = ([], refl); within = inr (ground arith) })
    ]

IsChain-suffix :
    (base : ℕ) (pre post : List Segment) (rs : List Record)
    → IsChain base (pre ++ post) rs
    → (xs : List Record) × (ys : List Record) × (rs ≡ xs ++ ys) × IsChain (base + length xs) post ys
IsChain-suffix base [] post rs c = ([], rs, refl, subst (λ b. IsChain b post rs) (omega arith) c)
IsChain-suffix base (s ∷ pre) post rs (us, vs, e, b, st, c) =
    let r = IsChain-suffix (base + length us) pre post vs c in
    (
      us ++ r.0,
      r.1,
      rw (e, r.2, append_assoc) refl,
      subst (λ b'. IsChain b' post r.1) (omega (arith, length-append us r.0)) r.3,
    )

All-suffix : (P : Segment → Type 0) (pre post : List Segment) → All P (pre ++ post) → All P post
All-suffix P [] post a = a
All-suffix P (s ∷ pre) post (p, a) = All-suffix P pre post a

-- The log has lost its oldest records, and holds the others as before.
pub record Retained (lowest : ℕ) (rs : List Record) (out : Log) : Type 0 where
  pub dropped : List Record
  pub kept : List Record
  pub split : rs ≡ dropped ++ kept
  pub holds : LogHolds out (lowest + length dropped) kept

EndsWith-Retained :
    (l : Log) (lowest : ℕ) (rs : List Record) (out : List Segment)
    → LogHolds l lowest rs
    → EndsWith l.sealed out
    → Retained lowest rs (record l { sealed = out })
EndsWith-Retained l lowest rs out h (pre, e) =
    let c = IsChain-suffix lowest pre out h.old (subst (λ ss. IsChain lowest ss h.old) e h.chain) in
    record {
      dropped = c.0;
      kept = c.1 ++ h.recent;
      split = rw (h.all, c.2, append_assoc) refl;
      holds = record {
        is_open = h.is_open;
        usable = h.usable;
        old = c.1;
        recent = h.recent;
        all = refl;
        chain = c.3;
        synced = All-suffix _ pre out (subst (All _) e h.synced);
        base = h.base ∙ omega (arith, ap length c.2, length-append c.0 c.1);
        active = h.active;
      };
    }

-- No more than the limit is kept, unless the active segment alone is.
pub record Bounded (l : Log) (lowest : ℕ) (rs : List Record) (out : Log) : Type 0 where
  pub retained : Retained lowest rs out
  pub within :
      ltb_ℤ (pos 0) l.config.retention_bytes ≡ true
      → (out.sealed ≡ []) ⊎ (total_size (segments out) ≤ pos_part l.config.retention_bytes)

total_size-append : (xs ys : List Segment) → total_size (xs ++ ys) ≡ total_size xs + total_size ys
unfolding total_size
total_size-append [] ys = omega arith
total_size-append (x ∷ xs) ys = omega (arith, total_size-append xs ys)

EndsWith-trans : (xs ys zs : List Segment) → EndsWith xs ys → EndsWith ys zs → EndsWith xs zs
EndsWith-trans xs ys zs (pre, e) (pre', e') = (pre ++ pre', rw (e, e', append_assoc) refl)

retain_bytes-Bounded :
    (l : Log) (out : List Segment) (lowest : ℕ) (rs : List Record)
    → LogHolds l lowest rs
    → EndsWith l.sealed out
    → Bounded l lowest rs (retain_bytes (record l { sealed = out }))
unfolding retain_bytes
retain_bytes-Bounded l out lowest rs h suffix =
    elim (Bool-cases (ltb_ℤ (pos 0) l.config.retention_bytes)) [
      | inl limited ↦
          let s =
            shrink-Shrunk (pos_part l.config.retention_bytes) (total_size (out ++ l.active ∷ []))
              (total_size (l.active ∷ [])) out (total_size-append out (l.active ∷ [])) in
          rw limited (record {
            retained =
                EndsWith-Retained l lowest rs _ h (EndsWith-trans l.sealed out _ suffix s.suffix);
            within = λ _. elim s.within [
              | inl none_left ↦ inl none_left
              | inr fits ↦ inr (
                  omega (
                    arith,
                    total_size-append
                        (shrink (pos_part l.config.retention_bytes)
                          (total_size (out ++ l.active ∷ [])) out)
                        (l.active ∷ []),
                    fits,
                  ))
            ];
          })
      | inr unlimited ↦ rw unlimited (record {
        retained = EndsWith-Retained l lowest rs out h suffix;
        within = λ e. absurd (ground arith);
      })
    ]

no_segments : (ss : List Segment) → (length ss == 0) ≡ true → ss ≡ []
no_segments [] e = refl
no_segments (s ∷ ss) e = absurd (ground arith)

-- On an open log that holds the records rs from the offset lowest on, and whose sealed segments
-- stand in the order of their creation times, a retention at any time drops a first part of rs, and
-- the log then holds the rest from the offset behind it; if there is a limit on the bytes, they are
-- within it afterwards or just the active segment is left.
pub run_retention-Bounded :
    (l : Log) (now lowest : ℕ) (rs : List Record)
    → LogHolds l lowest rs
    → IsAged l.sealed
    → Bounded l lowest rs (run_retention l now)
unfolding run_retention
run_retention-Bounded l now lowest rs h a = elim (Bool-cases (length l.sealed == 0)) [
  | inl none_sealed ↦ when {b = true} (rw h.is_open none_sealed) (record {
    retained = EndsWith-Retained l lowest rs l.sealed h ([], refl);
    within = λ _. inl (no_segments l.sealed none_sealed);
  })
  | inr some_sealed ↦ when {b = false} (rw h.is_open some_sealed) (
      retain_bytes-Bounded l (keep_young l.config now l.sealed) lowest rs h
        (keep_young-EndsWith l.config now l.sealed a))
]
  where
    when :
        {b : Bool}
        → (l.closed || length l.sealed == 0) ≡ b
        → Bounded l lowest rs
            (if b then l else retain_bytes (record l { sealed = keep_young l.config now l.sealed }))
        → Bounded l lowest rs (run_retention l now)
    when e =
        subst
          (λ b. Bounded l lowest rs (
            if b then l else retain_bytes (record l { sealed = keep_young l.config now l.sealed })))
          (sym e)
