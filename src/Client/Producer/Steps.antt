-- ===== src/Client/Producer/Steps.antt =====
-- pkg/client/producer.go as steps, with the waiters that it was given and the results that it sent.
use mini_kafka.Prelude.{if◌then◌else◌, ℕ, zero, suc, Bool, true, false, Option, List, [], ◌∷◌, ◌++◌}
use mini_kafka.Prelude.Int.{ℤ}
use mini_kafka.Protocol.Stream.{Bytes}
use mini_kafka.Storage.Record.{Record}
use mini_kafka.Client.Producer.{
  Producer, PendingBatch, Delivery, send_batched, linger_fire, begin_close, flush_batch, finalize,
}

pub record Sending : Type 0 where
  pub producer : Producer
  pub issued : List ℕ
  pub delivered : List Delivery

-- A flush takes any batch in flight, and is answered with offsets or not at all. A Close is two
-- steps, up to its flushes and from there on: the second comes at any time behind the first, since
-- a further Close does not wait for the flushes of an earlier one.
pub data Action : Type 0 where
  send : Bytes → ℤ → Record → ℕ → Action
  linger : ℕ → Action
  flush : ℕ → Option (List ℤ) → Action
  close finish : Action

abbrev pub taken : Sending → Producer × Bool → ℕ → Sending
taken s (p, false) waiter = record s { producer = p }
taken s (p, true) waiter = record s { producer = p; issued = s.issued ++ waiter ∷ [] }

-- The list without the element number `i`, and that one.
abbrev pub pick : ℕ → List PendingBatch → List PendingBatch × List PendingBatch
pick i [] = ([], [])
pick zero (pb ∷ pbs) = (pbs, pb ∷ [])
pick (suc i) (pb ∷ pbs) = let (left, out) = pick i pbs in (pb ∷ left, out)

abbrev pub flushed : Option (List ℤ) → List PendingBatch → List Delivery
flushed offsets [] = []
flushed offsets (pb ∷ pbs) = flush_batch pb offsets ++ flushed offsets pbs

unfoldable pub act : Action → Sending → Sending
act (send topic partition rec waiter) s =
    taken s (send_batched s.producer topic partition rec waiter) waiter
act (linger id) s = record s { producer = linger_fire s.producer id }
act (flush i offsets) s =
    let (left, out) = pick i s.producer.in_flight in
    record s {
      producer = record s.producer { in_flight = left };
      delivered = s.delivered ++ flushed offsets out;
    }
act close s = record s { producer = begin_close s.producer }
act finish s = if s.producer.closed then record s { producer = finalize s.producer } else s

unfoldable pub run : List Action → Sending → Sending
run [] s = s
run (a ∷ as') s = run as' (act a s)

-- Every batch in flight flushed.
unfoldable pub drain : Option (List ℤ) → Sending → Sending
drain offsets s = record s {
  producer = record s.producer { in_flight = [] };
  delivered = s.delivered ++ flushed offsets s.producer.in_flight;
}
