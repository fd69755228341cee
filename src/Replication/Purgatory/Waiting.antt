-- ===== src/Replication/Purgatory/Waiting.antt =====
-- Which requests a check takes out of the purgatory, and the order of ids.
use mini_kafka.Prelude.{
  ℕ, ◌+◌, ◌<◌, ◌≡◌, refl, ap, ◌∙◌, true, Option, none, some, List, [], ◌∷◌, ◌++◌, ◌==◌, All, length,
  ==_iff, str_eq, str_eq_iff, ◌≢◌, sym, false, ◌⊎◌, Bool-cases, inl, inr, arith, if◌then◌else◌,
}
use mathlib.Core.Path.{subst}
use mathlib.Core.Option.{some-injective}
use mini_kafka.Prelude.Int.{ℤ, ◌≤ℤ◌, ◌<ℤ◌, ◌==ℤ◌, ==ℤ_iff}
use mini_kafka.Protocol.Stream.{Bytes}
use mini_kafka.Replication.Purgatory.{
  ProduceRequestItem, Purgatory, IsValid, IsRising, is_due, release, check_and_complete, watch,
  cancel, without, find_item,
}

-- What is left of an item when the watermark has moved to `hw`.
abbrev unless_due : Bytes → ℤ → ℤ → Option ProduceRequestItem → Option ProduceRequestItem
unless_due topic partition hw none = none
unless_due topic partition hw (some item) =
    if is_due topic partition hw item then none else some item

find_item-below :
    (id : ℕ) (items : List ProduceRequestItem)
    → All (λ other. id < other.id) items
    → find_item id items ≡ none
unfolding find_item
find_item-below id [] h = refl
find_item-below id (item ∷ items) (lt, h) = ground (arith, find_item-below id items)

find_item-release :
    (topic : Bytes) (partition hw : ℤ) (id : ℕ) (items : List ProduceRequestItem)
    → IsRising items
    → find_item id (release topic partition hw items).0
      ≡ unless_due topic partition hw (find_item id items)
unfolding find_item release
find_item-release topic partition hw id [] h = refl
find_item-release topic partition hw id (item ∷ items) (first, h) =
    elim (Bool-cases (item.id == id)) [
      | inl here ↦ elim (Bool-cases (is_due topic partition hw item)) [
        | inl due ↦
            rw (here, due)
              (find_item-release topic partition hw id items h
                ∙ ap (unless_due topic partition hw) (gone here))
        | inr waits ↦ rw (here, waits) (rw here)
      ]
      | inr other ↦ elim (Bool-cases (is_due topic partition hw item)) [
        | inl due ↦ rw (other, due) (find_item-release topic partition hw id items h)
        | inr waits ↦ rw (other, waits) (rw other (find_item-release topic partition hw id items h))
      ]
    ]
  where
    gone : (item.id == id) ≡ true → find_item id items ≡ none
    gone e =
        subst (λ i. find_item i items ≡ none) ((==_iff item.id id).0 e)
          (find_item-below item.id items first)

length-release :
    (topic : Bytes) (partition hw : ℤ) (items : List ProduceRequestItem)
    → length (release topic partition hw items).0 + length (release topic partition hw items).1
      ≡ length items
unfolding release
length-release topic partition hw [] = omega arith
length-release topic partition hw (item ∷ items) =
    ground (arith, length-release topic partition hw items)

-- The channel is among those that get an answer.
abbrev pub IsIn : ℕ → List ℕ → Type 0
IsIn ch [] = ⊥
IsIn ch (c ∷ cs) = (ch ≡ c) ⊎ IsIn ch cs

answered-release :
    (topic : Bytes) (partition hw : ℤ) (id : ℕ) (items : List ProduceRequestItem)
    (item : ProduceRequestItem)
    → find_item id items ≡ some item
    → is_due topic partition hw item ≡ true
    → IsIn item.resp_ch (release topic partition hw items).1
unfolding find_item release
answered-release topic partition hw id [] item found due = cc
answered-release topic partition hw id (x ∷ items) item found due = elim (Bool-cases (x.id == id)) [
  | inl here ↦
      let same : x ≡ item = some-injective x item (sym (simp here refl) ∙ found) in
      rw same (rw due (inl refl))
  | inr other ↦
      let found' : find_item id items ≡ some item = sym (simp other refl) ∙ found in
      elim (Bool-cases (is_due topic partition hw x)) [
        | inl goes ↦ rw goes (inr (answered-release topic partition hw id items item found' due))
        | inr stays ↦ rw stays (answered-release topic partition hw id items item found' due)
      ]
]

-- The request is answered, and was due; or it waits on, and was not.
abbrev pub Checked : Bytes → ℤ → ℤ → ℕ → ProduceRequestItem → Purgatory × List ℕ → Type 0
Checked topic partition hw id item out =
    ((find_item id out.0.items ≡ none)
      × IsIn item.resp_ch out.1
      × (item.topic ≡ topic)
      × (item.partition ≡ partition)
      × (item.required_hw ≤ℤ hw))
    ⊎ ((find_item id out.0.items ≡ some item)
        × ((item.topic ≢ topic) ⊎ ((item.partition ≢ partition) ⊎ (hw <ℤ item.required_hw))))

due-parts :
    (topic : Bytes) (partition hw : ℤ) (item : ProduceRequestItem)
    → is_due topic partition hw item ≡ true
    → (item.topic ≡ topic) × (item.partition ≡ partition) × (item.required_hw ≤ℤ hw)
unfolding is_due
due-parts topic partition hw item e =
    ground (arith, str_eq_iff item.topic topic, ==ℤ_iff item.partition partition)

waits-parts :
    (topic : Bytes) (partition hw : ℤ) (item : ProduceRequestItem)
    → is_due topic partition hw item ≡ false
    → (item.topic ≢ topic) ⊎ ((item.partition ≢ partition) ⊎ (hw <ℤ item.required_hw))
unfolding is_due
waits-parts topic partition hw item e = elim (Bool-cases (str_eq item.topic topic)) [
  | inr other ↦ inl (ground (arith, str_eq_iff item.topic topic))
  | inl here ↦ elim (Bool-cases (item.partition ==ℤ partition)) [
    | inr away ↦ inr (inl (ground (arith, ==ℤ_iff item.partition partition)))
    | inl same ↦ inr (inr (ground arith))
  ]
]

-- In a purgatory whose ids are distinct, a check for a partition and a high watermark does one of
-- two things to a request that is found under an id: the request is for this topic and partition
-- and its required offset has been reached, it is found no more, and its channel is among those
-- that are answered; or it is for another topic or partition or requires more, and is found as
-- before. The requests that stay and the answers that are sent are together as many as there were
-- requests.
pub check_and_complete-Checked :
    (p : Purgatory) (topic : Bytes) (partition hw : ℤ) (id : ℕ) (item : ProduceRequestItem)
    → IsValid p
    → find_item id p.items ≡ some item
    → Checked topic partition hw id item (check_and_complete p topic partition hw)
      × (length (check_and_complete p topic partition hw).0.items
            + length (check_and_complete p topic partition hw).1
          ≡ length p.items)
unfolding check_and_complete
check_and_complete-Checked p topic partition hw id item v found = (
  elim (Bool-cases (is_due topic partition hw item)) [
    | inl due ↦
        let (same_topic, same_partition, reached) = due-parts topic partition hw item due in
        inl (
          after ∙ rw due refl,
          answered-release topic partition hw id p.items item found due,
          same_topic,
          same_partition,
          reached,
        )
    | inr waits ↦ inr (after ∙ rw waits refl, waits-parts topic partition hw item waits)
  ],
  length-release topic partition hw p.items,
)
  where
    after :
        find_item id (release topic partition hw p.items).0
        ≡ unless_due topic partition hw (some item)
    after =
        find_item-release topic partition hw id p.items v.rising
        ∙ ap (unless_due topic partition hw) found

All-weaken :
    {P Q : ProduceRequestItem → Type 0} (f : (x : ProduceRequestItem) → P x → Q x)
    (items : List ProduceRequestItem)
    → All P items
    → All Q items
All-weaken f [] h = tt
All-weaken f (item ∷ items) (p, h) = (f item p, All-weaken f items h)

All-snoc :
    (P : ProduceRequestItem → Type 0) (items : List ProduceRequestItem) (item : ProduceRequestItem)
    → All P items
    → P item
    → All P (items ++ item ∷ [])
All-snoc P [] item h p = (p, tt)
All-snoc P (x ∷ items) item (q, h) p = (q, All-snoc P items item h p)

IsRising-snoc :
    (items : List ProduceRequestItem) (item : ProduceRequestItem)
    → IsRising items
    → All (λ other. other.id < item.id) items
    → IsRising (items ++ item ∷ [])
IsRising-snoc [] item h p = (tt, tt)
IsRising-snoc (x ∷ items) item (first, h) (lt, p) =
    (All-snoc _ items item first lt, IsRising-snoc items item h p)

find_item-snoc :
    (items : List ProduceRequestItem) (item : ProduceRequestItem)
    → All (λ other. other.id < item.id) items
    → find_item item.id (items ++ item ∷ []) ≡ some item
unfolding find_item
find_item-snoc [] item h = ground arith
find_item-snoc (x ∷ items) item (lt, h) = ground (arith, find_item-snoc items item h)

-- Watching a request in a purgatory whose ids are distinct keeps them distinct, and the request is
-- found under the id that is returned, the one behind the last.
pub watch-IsValid :
    (p : Purgatory) (topic : Bytes) (partition required_hw : ℤ) (resp_ch : ℕ)
    → IsValid p
    → IsValid (watch p topic partition required_hw resp_ch).0
      × (find_item
            (watch p topic partition required_hw resp_ch).1
            (watch p topic partition required_hw resp_ch).0.items
          ≡ some (record {
            id = p.next_id + 1;
            topic = topic;
            partition = partition;
            required_hw = required_hw;
            resp_ch = resp_ch;
          }))
unfolding watch
watch-IsValid p topic partition required_hw resp_ch v = (
  record {
    below =
        All-snoc _ p.items _ (All-weaken (λ x h. omega (arith, h)) p.items v.below) (omega arith);
    rising = IsRising-snoc p.items _ v.rising older;
  },
  find_item-snoc p.items _ older,
)
  where
    older : All (λ other. other.id < p.next_id + 1) p.items
    older = All-weaken (λ x h. omega (arith, h)) p.items v.below

All-release :
    (P : ProduceRequestItem → Type 0) (topic : Bytes) (partition hw : ℤ)
    (items : List ProduceRequestItem)
    → All P items
    → All P (release topic partition hw items).0
unfolding release
All-release P topic partition hw [] h = tt
All-release P topic partition hw (item ∷ items) (p, h) =
    elim (Bool-cases (is_due topic partition hw item)) [
      | inl due ↦ rw due (All-release _ topic partition hw items h)
      | inr waits ↦ rw waits (p, All-release _ topic partition hw items h)
    ]

IsRising-release :
    (topic : Bytes) (partition hw : ℤ) (items : List ProduceRequestItem)
    → IsRising items
    → IsRising (release topic partition hw items).0
unfolding release
IsRising-release topic partition hw [] h = tt
IsRising-release topic partition hw (item ∷ items) (first, h) =
    elim (Bool-cases (is_due topic partition hw item)) [
      | inl due ↦ rw due (IsRising-release topic partition hw items h)
      | inr waits ↦ rw waits (
        All-release _ topic partition hw items first,
        IsRising-release topic partition hw items h,
      )
    ]

-- A check keeps the ids of a purgatory distinct and below the next one.
pub check_and_complete-IsValid :
    (p : Purgatory) (topic : Bytes) (partition hw : ℤ)
    → IsValid p
    → IsValid (check_and_complete p topic partition hw).0
unfolding check_and_complete
check_and_complete-IsValid p topic partition hw v = record {
  below = All-release _ topic partition hw p.items v.below;
  rising = IsRising-release topic partition hw p.items v.rising;
}

find_item-without :
    (id other : ℕ) (items : List ProduceRequestItem)
    → find_item other (without id items) ≡ (if id == other then none else find_item other items)
unfolding find_item without
find_item-without id other [] = ground arith
find_item-without id other (item ∷ items) = ground (arith, find_item-without id other items)

-- After an item is cancelled by its id nothing is found under that id, and what is found under any
-- other id is as before.
pub find_item-cancel :
    (p : Purgatory) (id other : ℕ)
    → find_item other (cancel p id).items ≡ (if id == other then none else find_item other p.items)
unfolding cancel
find_item-cancel p id other = find_item-without id other p.items
