-- ===== src/Broker/Fetch/Leaks.antt =====
-- handleFetch of internal/broker/broker.go: the registrations of a waiting fetch.
use mini_kafka.Prelude.{
  ℕ, suc, ◌+◌, ◌<◌, ◌≡◌, ◌≢◌, refl, ◌∙◌, Bool, true, false, Bool-cases, inl, inr, Option, none,
  some, List, [], ◌∷◌, ◌==◌, ◌&&◌, if◌then◌else◌, arith, ==_iff, ==_false→ne,
}
use mini_kafka.Prelude.Int.{ℤ}
use mini_kafka.Protocol.Stream.{Bytes}
use mini_kafka.Replication.Epoch.{same_partition_iff}
use mini_kafka.Broker.State.{Listener, Broker}
use mini_kafka.Broker.Fetch.{
  FetchTarget, registered_for, unregistered_for, register_all, unregister_all,
}
use mini_kafka.Broker.Listeners.{
  listens, register_listener_on, notify_appended, take_last, last_of, moved, unregister_listener,
}

-- How often a channel gets the signal of a partition.
abbrev pub times : ℕ → List ℕ → ℕ
times ch [] = 0
times ch (c ∷ cs) = let rest = times ch cs in if c == ch then suc rest else rest

abbrev signals : List Listener → Bytes → ℤ → ℕ → ℕ
signals rs topic partition ch = times ch (notify_appended rs topic partition)

-- The signals of one registration.
abbrev signal : Listener → Bytes → ℤ → ℕ → ℕ
signal r topic partition ch =
    if listens topic partition r then (if r.channel == ch then 1 else 0) else 0

signals-cons :
    (r : Listener) (rs : List Listener) (topic : Bytes) (partition : ℤ) (ch : ℕ)
    → signals (r ∷ rs) topic partition ch
      ≡ signal r topic partition ch + signals rs topic partition ch
unfolding notify_appended
signals-cons r rs topic partition ch = ground arith

signals-register :
    (rs : List Listener) (topic t : Bytes) (partition p : ℤ) (ch c : ℕ)
    → signals (register_listener_on rs topic partition ch) t p c
      ≡ signals rs t p c
        + signal (record { topic = topic; partition = partition; channel = ch }) t p c
unfolding register_listener_on
signals-register [] topic t partition p ch c =
    signals-cons (record { topic = topic; partition = partition; channel = ch }) [] t p c
    ∙ (unfold notify_appended in omega arith)
signals-register (r ∷ rs) topic t partition p ch c =
    signals-cons r (register_listener_on rs topic partition ch) t p c
    ∙ omega (arith, signals-register rs topic t partition p ch c, signals-cons r rs t p c)

last_of-moved :
    (here : Bool) (r : Listener) (rs : List Listener) (o : Option (Listener × List Listener))
    (t : Bytes) (p : ℤ) (c : ℕ)
    → signals (moved rs o) t p c ≡ signals rs t p c
    → signals (moved (r ∷ rs) (last_of here r rs o)) t p c ≡ signals (r ∷ rs) t p c
last_of-moved here r rs (some (last, others)) t p c h =
    signals-cons last (r ∷ others) t p c
    ∙ omega (
      arith,
      h,
      signals-cons r others t p c,
      signals-cons last others t p c,
      signals-cons r rs t p c,
    )
last_of-moved true r rs none t p c h = refl
last_of-moved false r rs none t p c h = refl

-- The move of the last registration loses no signal.
moved-signals :
    (rs : List Listener) (topic t : Bytes) (partition p : ℤ) (c : ℕ)
    → signals (moved rs (take_last topic partition rs)) t p c ≡ signals rs t p c
unfolding take_last
moved-signals [] topic t partition p c = refl
moved-signals (r ∷ rs) topic t partition p c =
    last_of-moved (listens topic partition r) r rs (take_last topic partition rs) t p c
      (moved-signals rs topic t partition p c)

-- The registration of a channel for a partition.
abbrev registered : Bytes → ℤ → ℕ → Listener
registered topic partition ch = record { topic = topic; partition = partition; channel = ch }

signal-same :
    (r : Listener) (topic t : Bytes) (partition p : ℤ) (ch c : ℕ)
    → listens topic partition r ≡ true
    → (r.channel == ch) ≡ true
    → signal r t p c ≡ signal (registered topic partition ch) t p c
unfolding listens
signal-same r topic t partition p ch c e f =
    let same = (same_partition_iff r.topic r.partition topic partition).0 e in
    simp (same.0, same.1, (==_iff r.channel ch).0 f) refl

signal-own :
    (topic : Bytes) (partition : ℤ) (ch : ℕ)
    → signal (registered topic partition ch) topic partition ch ≡ 1
unfolding listens
signal-own topic partition ch =
    simp
      ((same_partition_iff topic partition topic partition).1 (refl, refl), (==_iff ch ch).1 refl)
      refl

signal-other :
    (r : Listener) (topic : Bytes) (partition : ℤ) (ch : ℕ)
    → (listens topic partition r && r.channel == ch) ≡ false
    → signal r topic partition ch ≡ 0
signal-other r topic partition ch e = ground arith

parts : (x y : Bool) → (x && y) ≡ true → (x ≡ true) × (y ≡ true)
parts true y e = (refl, e)
parts false y e = cc

-- One registration of the channel goes, if there is one.
unregister-signals :
    (rs : List Listener) (topic t : Bytes) (partition p : ℤ) (ch c : ℕ)
    → 0 < signals rs topic partition ch
    → signals rs t p c
      ≡ signals (unregister_listener rs topic partition ch) t p c
        + signal (registered topic partition ch) t p c
unfolding unregister_listener
unregister-signals [] topic t partition p ch c h = absurd (unfold notify_appended in omega arith)
unregister-signals (r ∷ rs) topic t partition p ch c h =
    elim (Bool-cases (listens topic partition r && r.channel == ch)) [
      | inl here ↦
          let both = parts (listens topic partition r) (r.channel == ch) here in
          simp here (
            omega (
              arith,
              signals-cons r rs t p c,
              moved-signals rs topic t partition p c,
              signal-same r topic t partition p ch c both.0 both.1,
            ))
      | inr other ↦ simp other (
          omega (
            arith,
            signals-cons r rs t p c,
            signals-cons r (unregister_listener rs topic partition ch) t p c,
            unregister-signals rs topic t partition p ch c (
                omega (
                  arith,
                  h,
                  signals-cons r rs topic partition ch,
                  signal-other r topic partition ch other,
                )),
          ))
    ]

-- The signals that the registrations for the targets add.
abbrev totals : List FetchTarget → ℕ → Bytes → ℤ → ℕ → ℕ
totals [] ch t p c = 0
totals (x ∷ xs) ch t p c = signal (registered x.topic x.partition ch) t p c + totals xs ch t p c

register_all-signals :
    (ts : List FetchTarget) (ch : ℕ) (b : Broker) (t : Bytes) (p : ℤ) (c : ℕ)
    → signals (register_all ts ch b).listeners t p c
      ≡ signals b.listeners t p c + totals ts ch t p c
unfolding register_all
register_all-signals [] ch b t p c = omega arith
register_all-signals (x ∷ xs) ch b t p c = omega (
  arith,
  register_all-signals xs ch (registered_for x ch b) t p c,
  signals-register b.listeners x.topic t x.partition p ch c,
)

unregister_all-signals :
    (ts : List FetchTarget) (ch : ℕ) (b : Broker) (base : Bytes → ℤ → ℕ)
    → ((t : Bytes) (p : ℤ) → signals b.listeners t p ch ≡ base t p + totals ts ch t p ch)
    → (t : Bytes) (p : ℤ) (c : ℕ)
    → signals b.listeners t p c
      ≡ signals (unregister_all ts ch b).listeners t p c + totals ts ch t p c
unfolding unregister_all
unregister_all-signals [] ch b base h t p c = omega arith
unregister_all-signals (x ∷ xs) ch b base h t p c = omega (
  arith,
  gone t p c,
  unregister_all-signals xs ch (unregistered_for x ch b) base
      (λ t' p'. omega (arith, gone t' p' ch, h t' p')) t p c,
)
  where
    gone :
        (t' : Bytes) (p' : ℤ) (c' : ℕ)
        → signals b.listeners t' p' c'
          ≡ signals (unregister_listener b.listeners x.topic x.partition ch) t' p' c'
            + signal (registered x.topic x.partition ch) t' p' c'
    gone t' p' c' =
        unregister-signals b.listeners x.topic t' x.partition p' ch c'
          (omega (arith, h x.topic x.partition, signal-own x.topic x.partition ch))

totals-other :
    (ts : List FetchTarget) (ch c : ℕ) (t : Bytes) (p : ℤ) → c ≢ ch → totals ts ch t p c ≡ 0
totals-other [] ch c t p h = refl
totals-other (x ∷ xs) ch c t p h =
    let rest = totals-other xs ch c t p h in ground (arith, ==_iff ch c)

-- If the other requests leave the registrations of a fetch's channel alone while the fetch waits,
-- then, once it has taken the channel off all its targets, also where a partition is among them
-- twice, an append to any partition signals the channel as often as before the fetch registered it,
-- and every other channel as often as before it was taken off.
pub unregister_all-register_all :
    (ts : List FetchTarget) (ch : ℕ) (b b' : Broker)
    → ((t : Bytes) (p : ℤ)
        → times ch (notify_appended b'.listeners t p)
          ≡ times ch (notify_appended (register_all ts ch b).listeners t p))
    → (t : Bytes) (p : ℤ) (c : ℕ)
    → times c (notify_appended (unregister_all ts ch b').listeners t p) ≡ (
        if c == ch
        then times c (notify_appended b.listeners t p)
        else times c (notify_appended b'.listeners t p))
unregister_all-register_all ts ch b b' same t p c = elim (Bool-cases (c == ch)) [
  | inl own ↦
      simp ((==_iff c ch).0 own, (==_iff ch ch).1 refl) (omega (arith, kept t p, removed ch))
  | inr other ↦
      simp other (omega (arith, removed c, totals-other ts ch c t p (==_false→ne c ch other)))
]
  where
    kept :
        (t' : Bytes) (p' : ℤ)
        → signals b'.listeners t' p' ch ≡ signals b.listeners t' p' ch + totals ts ch t' p' ch
    kept t' p' = same t' p' ∙ register_all-signals ts ch b t' p' ch

    removed :
        (c : ℕ)
        → signals b'.listeners t p c
          ≡ signals (unregister_all ts ch b').listeners t p c + totals ts ch t p c
    removed c = unregister_all-signals ts ch b' (λ t' p'. signals b.listeners t' p' ch) kept t p c
