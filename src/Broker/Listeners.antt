-- ===== src/Broker/Listeners.antt =====
-- internal/broker/broker.go: the channels that wait for appends to a partition. The two levels of
-- maps are one list of registrations, in the order of their making; a channel is a number, and its
-- buffer has one place, which a send fills.
use mini_kafka.Prelude.{
  ℕ, Bool, true, false, Option, none, some, List, [], ◌∷◌, ◌++◌, ◌==◌, ◌&&◌, if◌then◌else◌,
}
use mini_kafka.Prelude.Int.{ℤ}
use mini_kafka.Protocol.Stream.{Bytes}
use mini_kafka.Replication.Epoch.{same_partition}
use mini_kafka.Broker.State.{Listener}

unfoldable pub listens : Bytes → ℤ → Listener → Bool
listens topic partition r = same_partition r.topic r.partition topic partition

-- registerListenerOn
unfoldable pub register_listener_on : List Listener → Bytes → ℤ → ℕ → List Listener
register_listener_on rs topic partition ch =
    rs ++ record { topic = topic; partition = partition; channel = ch } ∷ []

-- notifyAppended: the channels that are sent to, in their order.
unfoldable pub notify_appended : List Listener → Bytes → ℤ → List ℕ
notify_appended [] topic partition = []
notify_appended (r ∷ rs) topic partition =
    let rest = notify_appended rs topic partition in
    if listens topic partition r then r.channel ∷ rest else rest

abbrev pub last_of :
    Bool
    → Listener
    → List Listener
    → Option (Listener × List Listener)
    → Option (Listener × List Listener)
last_of here r rs (some (last, others)) = some (last, r ∷ others)
last_of true r rs none = some (r, rs)
last_of false r rs none = none

-- The partition's last registration, and the list without it.
unfoldable pub take_last : Bytes → ℤ → List Listener → Option (Listener × List Listener)
take_last topic partition [] = none
take_last topic partition (r ∷ rs) =
    last_of (listens topic partition r) r rs (take_last topic partition rs)

abbrev pub moved : List Listener → Option (Listener × List Listener) → List Listener
moved rs none = rs
moved rs (some (last, others)) = last ∷ others

-- unregisterListener: the last registration of the partition takes the place of the one that goes.
unfoldable pub unregister_listener : List Listener → Bytes → ℤ → ℕ → List Listener
unfolding take_last
unregister_listener [] topic partition ch = []
unregister_listener (r ∷ rs) topic partition ch =
    let rest = unregister_listener rs topic partition ch in
    if listens topic partition r && r.channel == ch
    then moved rs (take_last topic partition rs)
    else r ∷ rest
