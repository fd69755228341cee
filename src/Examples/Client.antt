-- ===== src/Examples/Client.antt =====
-- A producer that is closed while a batch is pending.
use mini_kafka.Prelude.{◌≡◌, refl, none, List, [], ◌∷◌}
use mini_kafka.Prelude.Int.{pos}
use mini_kafka.Client.Producer.{ProducerConfig}
use mini_kafka.Client.Producer.Steps.{send, linger, close, finish, Action}
use mini_kafka.Client.Producer.Answered.{finished, finished-answered}
use mini_kafka.Client.Producer.Held.{answered, tally}
use mini_kafka.Examples.Log.{rec}

abbrev lingering : ProducerConfig
lingering = record {
  client_id = [];
  acks = pos 1;
  timeout_ms = pos 30000;
  linger_ms = pos 5;
  batch_size = pos 10;
}

-- Two records for one partition and one for another, a timer, a Close with its end, and a late
-- record.
abbrev sends : List Action
sends =
    send (111 ∷ []) (pos 0) (rec 0) 4
    ∷ send (111 ∷ []) (pos 0) (rec 0) 5
    ∷ send (111 ∷ []) (pos 1) (rec 0) 6
    ∷ linger 0
    ∷ close
    ∷ finish
    ∷ send (111 ∷ []) (pos 0) (rec 0) 4
    ∷ []

finished-answered_example :
    answered 4 (finished lingering sends none).delivered
    ≡ tally 4 (finished lingering sends none).issued
finished-answered_example = finished-answered lingering sends none 4 refl
