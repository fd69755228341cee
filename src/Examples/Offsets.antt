-- ===== src/Examples/Offsets.antt =====
-- A store of committed offsets with one log, and the records of an answer to a follower.
use mini_kafka.Prelude.{◌≡◌, sym, ◌^◌, refl, some, true, ◌++◌, [], ◌∷◌, arith, drop}
use mini_kafka.Prelude.Int.{pos}
use mathlib.Core.Path.{subst}
use mini_kafka.Protocol.Stream.{Bytes}
use mini_kafka.Storage.Record.{encoded_size}
use mini_kafka.Storage.Record.RoundTrip.{IsRecord}
use mini_kafka.Storage.Log.{Log, returned}
use mini_kafka.Storage.Log.Append.{at_offset}
use mini_kafka.Storage.Log.ReadFrom.Only.{IsOnly, flushed_log}
use mini_kafka.Protocol.Codec.{be}
use mini_kafka.Coordinator.Offsets.{
  OffsetStore, offset_key, commit, fetch, lookup, replay_records, replay_log, replay_key,
  started_log, new_offset_store, commit_record, decimal, digits,
}
use mini_kafka.Coordinator.Offsets.Durable.{Recorded, home, grown, commit-Recorded, fetch-commit}
use mini_kafka.Coordinator.Offsets.Replay.{replay_log-all, started_log-replayed}
use mini_kafka.Replication.Wire.{encode_replica_fetch_response, decode_replica_fetch_response}
use mini_kafka.Replication.Wire.Answer.{Ends, encode_replica_fetch_response-Ends}
use mini_kafka.Examples.Log.{rec, log, single, single-Holds, rec-IsRecord, log-LogHolds}

encode_replica_fetch_response-Ends_example :
    Ends
      (encode_replica_fetch_response (pos 0) (pos 8) (rec 7 ∷ rec 8 ∷ []))
      decode_replica_fetch_response
      (record { error_code = pos 0; high_watermark = pos 8; records = rec 7 ∷ rec 8 ∷ [] })
encode_replica_fetch_response-Ends_example =
    encode_replica_fetch_response-Ends (pos 0) (pos 8) (rec 7 ∷ rec 8 ∷ []) (omega arith)
      (omega arith) (rec-IsRecord 7 (omega arith), (rec-IsRecord 8 (omega arith), tt))

-- A log with a record that has no key.
abbrev alone : Log
alone = record log { sealed = []; active = single 0 }

alone-IsOnly : IsOnly alone (rec 0 ∷ [])
alone-IsOnly = record {
  alone = refl;
  is_open = refl;
  slots = _;
  count = 1;
  holds = single-Holds 0 (omega arith);
}

replay_log-all_example :
    replay_log 2 alone (pos 0) []
    ≡ some (flushed_log alone, replay_records [] (drop 0 (rec 0 ∷ [])))
replay_log-all_example = replay_log-all 2 alone (rec 0 ∷ []) 0 [] alone-IsOnly refl (omega arith)

started_log-replayed_example : started_log (new_offset_store (pos 1)) (returned alone) ≡ (
  record (new_offset_store (pos 1)) {
    cache = replay_records (new_offset_store (pos 1)).cache (rec 0 ∷ []);
    logs = (new_offset_store (pos 1)).logs ++ flushed_log alone ∷ [];
  },
  true,
)
started_log-replayed_example =
    started_log-replayed (new_offset_store (pos 1)) alone (rec 0 ∷ []) alone-IsOnly refl

-- A started store, whose only log has two records that are no commits.
abbrev store : OffsetStore
store = record { cache = []; num_parts = 1; logs = log ∷ []; started = true }

abbrev group : Bytes
group = 103 ∷ []

abbrev topic : Bytes
topic = 111 ∷ []

store-Recorded : Recorded store (offset_key group topic (pos 0)) 0 7 (rec 7 ∷ rec 8 ∷ [])
unfolding replay_records replay_key
store-Recorded = record {
  is_started = refl;
  log = log;
  there = refl;
  holds = log-LogHolds;
  agrees = refl;
}

home-store : home store group ≡ 0
home-store = omega arith

commit-IsRecord :
    IsRecord (at_offset 9 (commit_record (10 ^ 10) (offset_key group topic (pos 0)) (pos 42)))
unfolding commit_record offset_key decimal digits encoded_size be
commit-IsRecord = record {
  offset = omega arith;
  timestamp = omega arith;
  attributes = omega arith;
  fits = omega arith;
}

commit-Recorded_example :
    Recorded
      (commit store (10 ^ 10) group topic (pos 0) (pos 42))
      (offset_key group topic (pos 0))
      0
      7
      (grown store 0 group 7
        (rec 7 ∷ rec 8 ∷ [])
        (commit_record (10 ^ 10) (offset_key group topic (pos 0)) (pos 42)))
commit-Recorded_example =
    commit-Recorded store (10 ^ 10) 0 7 (rec 7 ∷ rec 8 ∷ []) (offset_key group topic (pos 0)) group
      topic (pos 0) (pos 42) store-Recorded (omega arith) (λ e. home-store) commit-IsRecord

fetch-commit_example :
    (fetch (commit store (10 ^ 10) group topic (pos 0) (pos 42)) group topic (pos 0) ≡ pos 42)
    × (lookup
          (replay_records [] (
            grown store
              (home store group)
              group
              7
              (rec 7 ∷ rec 8 ∷ [])
              (commit_record (10 ^ 10) (offset_key group topic (pos 0)) (pos 42))))
          (offset_key group topic (pos 0))
        ≡ some (pos 42))
fetch-commit_example =
    fetch-commit store (10 ^ 10) 7 (rec 7 ∷ rec 8 ∷ []) group topic (pos 0) (pos 42)
      (subst (λ i. Recorded store (offset_key group topic (pos 0)) i 7 (rec 7 ∷ rec 8 ∷ []))
        (sym home-store) store-Recorded)
      (omega arith) commit-IsRecord
