-- ===== src/Examples/Replication.antt =====
-- Replicas, epochs and waiting requests at concrete inputs.
use mini_kafka.Prelude.{◌≡◌, refl, ℕ, ◌+◌, ◌*◌, ◌^◌, true, List, [], ◌∷◌, All, ◌⊎◌, arith, length}
use mini_kafka.Prelude.Int.{pos}
use mini_kafka.Replication.Isr.{IsrTracker, update_leo, find}
use mini_kafka.Replication.Isr.Watermark.{Covers, update_leo-Covers}
use mini_kafka.Replication.Isr.CaughtUp.{Updated, update_leo-Updated}
use mini_kafka.Replication.Purgatory.{Purgatory, IsValid, check_and_complete, find_item}
use mini_kafka.Replication.Purgatory.Waiting.{Checked, check_and_complete-Checked}

-- A leader, a follower that is two behind, and one that has lagged for too long.
abbrev three : IsrTracker
three = record {
  replicas =
      record { broker_id = pos 1; log_end_offset = pos 10; last_caught_up_time = 0; in_sync = true }
      ∷ record {
        broker_id = pos 2;
        log_end_offset = pos 8;
        last_caught_up_time = 9 * 10 ^ 9;
        in_sync = true;
      }
      ∷ record {
        broker_id = pos 3;
        log_end_offset = pos 4;
        last_caught_up_time = 0;
        in_sync = true;
      }
      ∷ [];
  leader_id = pos 1;
  replica_lag_time_max_ms = 5000;
  high_watermark = pos 4;
}

abbrev later : ℕ
later = 10 ^ 10

update_leo-Covers_example :
    ((update_leo three later (pos 2) (pos 9) (pos 10)).1 ≡ pos 4)
    ⊎ All
        (Covers (update_leo three later (pos 2) (pos 9) (pos 10)).1)
        (update_leo three later (pos 2) (pos 9) (pos 10)).0.replicas
unfolding update_leo
update_leo-Covers_example =
    update_leo-Covers three later (pos 2) (pos 9) (pos 10)
      (omega arith, (omega arith, (omega arith, tt)))

-- The follower reaches the leader's offset.
update_leo-Updated_example : Updated three later (pos 2) (pos 10) (pos 10) (pos 2) (record {
  broker_id = pos 2;
  log_end_offset = pos 8;
  last_caught_up_time = 9 * 10 ^ 9;
  in_sync = true;
})
unfolding find
update_leo-Updated_example = update_leo-Updated three later (pos 2) (pos 10) (pos 10) (pos 2) _ refl

abbrev orders : List ℕ
orders = 111 ∷ 114 ∷ []

-- Two requests that wait for partition 0 of `orders`.
abbrev waiting : Purgatory
waiting = record {
  items =
      record { id = 1; topic = orders; partition = pos 0; required_hw = pos 5; resp_ch = 70 }
      ∷ record { id = 2; topic = orders; partition = pos 0; required_hw = pos 9; resp_ch = 71 }
      ∷ [];
  next_id = 2;
}

waiting-IsValid : IsValid waiting
waiting-IsValid = record {
  below = (omega arith, (omega arith, tt));
  rising = ((omega arith, tt), (tt, tt));
}

check_and_complete-Checked_example :
    Checked orders
      (pos 0)
      (pos 6)
      1
      (record { id = 1; topic = orders; partition = pos 0; required_hw = pos 5; resp_ch = 70 })
      (check_and_complete waiting orders (pos 0) (pos 6))
    × (length (check_and_complete waiting orders (pos 0) (pos 6)).0.items
          + length (check_and_complete waiting orders (pos 0) (pos 6)).1
        ≡ 2)
unfolding find_item
check_and_complete-Checked_example =
    check_and_complete-Checked waiting orders (pos 0) (pos 6) 1
      (record { id = 1; topic = orders; partition = pos 0; required_hw = pos 5; resp_ch = 70 })
      waiting-IsValid refl
