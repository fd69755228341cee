-- ===== src/Replication/Purgatory.antt =====
-- internal/replication/replication.go: the waiting room of acks=all requests. A response channel is
-- a number; its buffer has one place, which a send fills, and a send to a full one is dropped.
pub mod Waiting
use mini_kafka.Prelude.{
  ℕ, suc, ◌+◌, ◌≤◌, ◌<◌, ◌≡◌, ◌≢◌, refl, Bool, true, false, not, Option, none, some, List, [], ◌∷◌,
  ◌++◌, ◌&&◌, ◌==◌, str_eq, All, length, ==_iff, Bool-cases, inl, inr, arith, if◌then◌else◌,
}
use mathlib.Core.Path.{subst}
use mini_kafka.Prelude.Int.{ℤ, leb_ℤ, ◌≤ℤ◌, ◌==ℤ◌}
use mini_kafka.Protocol.Stream.{Bytes}

pub record ProduceRequestItem : Type 0 where
  pub id : ℕ
  pub topic : Bytes
  pub partition : ℤ
  pub required_hw : ℤ
  pub resp_ch : ℕ

pub record Purgatory : Type 0 where
  pub items : List ProduceRequestItem
  pub next_id : ℕ

abbrev pub new_purgatory : Purgatory
new_purgatory = record { items = []; next_id = 0 }

-- Watch: the id is fresh, so the map gains an item.
pub watch : Purgatory → Bytes → ℤ → ℤ → ℕ → Purgatory × ℕ
watch p topic partition required_hw resp_ch =
    let id = p.next_id + 1 in
    (
      record {
        items =
            p.items
            ++ record {
              id = id;
              topic = topic;
              partition = partition;
              required_hw = required_hw;
              resp_ch = resp_ch;
            }
              ∷ [];
        next_id = id;
      },
      id,
    )

unfoldable pub is_due : Bytes → ℤ → ℤ → ProduceRequestItem → Bool
is_due topic partition hw item =
    str_eq item.topic topic && (item.partition ==ℤ partition && leb_ℤ item.required_hw hw)

-- The items that stay, and the channels that get a nil, in the order of the loop.
pub release : Bytes → ℤ → ℤ → List ProduceRequestItem → List ProduceRequestItem × List ℕ
unfolding is_due
release topic partition hw [] = ([], [])
release topic partition hw (item ∷ items) =
    let (kept, sent) = release topic partition hw items in
    if is_due topic partition hw item then (kept, item.resp_ch ∷ sent) else (item ∷ kept, sent)

-- CheckAndComplete
pub check_and_complete : Purgatory → Bytes → ℤ → ℤ → Purgatory × List ℕ
unfolding release
check_and_complete p topic partition hw =
    let (kept, sent) = release topic partition hw p.items in (record p { items = kept }, sent)

without : ℕ → List ProduceRequestItem → List ProduceRequestItem
without id [] = []
without id (item ∷ items) =
    let rest = without id items in if item.id == id then rest else item ∷ rest

-- Cancel
pub cancel : Purgatory → ℕ → Purgatory
unfolding without
cancel p id = record p { items = without id p.items }

unfoldable pub find_item : ℕ → List ProduceRequestItem → Option ProduceRequestItem
find_item id [] = none
find_item id (item ∷ items) = if item.id == id then some item else find_item id items

-- Ids are handed out in rising order and never twice.
abbrev pub IdsBelow : ℕ → List ProduceRequestItem → Type 0
IdsBelow bound items = All (λ item. item.id ≤ bound) items

abbrev pub IsRising : List ProduceRequestItem → Type 0
IsRising [] = Unit {0}
IsRising (item ∷ items) = All (λ other. item.id < other.id) items × IsRising items

pub record IsValid (p : Purgatory) : Type 0 where
  pub below : IdsBelow p.next_id p.items
  pub rising : IsRising p.items
