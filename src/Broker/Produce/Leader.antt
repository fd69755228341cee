-- ===== src/Broker/Produce/Leader.antt =====
-- handleProduce of internal/broker/broker.go: the produce that is accepted.
use mini_kafka.Prelude.{
  ℕ, suc, ◌+◌, ◌≤◌, ◌≡◌, refl, sym, ap, ◌∙◌, true, false, Bool-cases, inl, inr, Option, none, some,
  List, ◌∷◌, ◌++◌, All, length, le→ltb_false, arith, if◌then◌else◌,
}
use mini_kafka.Prelude.Int.{ℤ, pos, ◌≤ℤ◌, ==ℤ_iff}
use mathlib.Core.Path.{subst}
use mini_kafka.Protocol.Stream.{Bytes}
use mini_kafka.Protocol.Requests.Produce.{ProduceRequestPartition}
use mini_kafka.Server.Handler.{err_none}
use mini_kafka.Storage.Record.{Record}
use mini_kafka.Storage.Record.RoundTrip.{IsRecord}
use mini_kafka.Storage.Segment.Contents.{log_bytes, length-log_bytes}
use mini_kafka.Storage.Log.{LogError, highest_offset}
use mini_kafka.Storage.Log
use mini_kafka.Storage.Log.Contents.{LogHolds}
use mini_kafka.Storage.Log.Batch.{stamped_from, LoggedAll, append_batch-LoggedAll}
use mini_kafka.Replication.Isr.{IsrTracker, get_isr}
use mini_kafka.Replication.Epoch.{get_epoch}
use mini_kafka.Broker.Partition.{
  Partition, append_batch, set_high_watermark, set_high_watermark-mono, set_high_watermark-log,
  log_end_offset,
}
use mini_kafka.Broker.State.{Broker, World, find_partition, with_partition, find_tracker}
use mini_kafka.Broker.State.Change.{find_partition-with_partition}
use mini_kafka.Broker.Replicas.{
  is_leader, led_by, tracked, get_or_create_isr_tracker, update_leader_leo, min_insync_replicas,
}
use mini_kafka.Broker.Replicas.Untouched.{update_replica_leo-topics, same_topics}
use mini_kafka.Broker.Produce.{
  PendingAck, Produced, produce_partition, produce_at, as_leader, check_replicas, lacks_replicas,
  produce_records, too_large, append_decoded, after_append, committed, asks_all,
}
use mini_kafka.Broker.Produce.Records.{decode_records-log_bytes}

-- With acks=all, the produce waits until the high watermark has reached the end of the log.
abbrev pub ack_at : ℤ → Bytes → ℤ → Partition → Option PendingAck
ack_at acks topic id p =
    if asks_all acks
    then some (record { topic = topic; partition = id; required_hw = pos (highest_offset p.log) })
    else none

-- The answer, and the partition afterwards, whose log holds `xs`; `hw` is the high watermark before.
pub record Produces (acks : ℤ) (topic : Bytes) (id hw : ℤ) (lowest base : ℕ) (xs : List Record)
    (out : Broker × Produced) : Type 0 where
  pub answered : out.1.response.error_code ≡ err_none
  pub first : out.1.response.base_offset ≡ pos base
  pub partition : Partition
  pub there : find_partition out.0 topic id ≡ some partition
  pub holds : LogHolds partition.log lowest xs
  pub rises : hw ≤ℤ partition.high_watermark
  pub waits : out.1.pending ≡ ack_at acks topic id partition

after_append-Produces :
    (w : World) (acks : ℤ) (topic : Bytes) (id hw : ℤ) (b : Broker) (lowest base : ℕ)
    (xs : List Record) (q : Partition) (out : Partition × (ℕ × Option LogError))
    → find_partition b topic id ≡ some q
    → out.1.0 ≡ base
    → out.1.1 ≡ none
    → out.0.high_watermark ≡ hw
    → LogHolds out.0.log lowest xs
    → Produces acks topic id hw lowest base xs (after_append w acks topic id b out)
unfolding after_append committed with_partition find_partition
after_append-Produces w acks topic id hw b lowest base xs q (p, (o, some e)) there f ne same h = cc
after_append-Produces w acks topic id hw b lowest base xs q (p, (o, none)) there f ne same h =
    record {
      answered = refl;
      first = ap pos f;
      partition = set_high_watermark p (update_leader_leo w b topic id (log_end_offset p)).1;
      there =
          find_partition-with_partition (update_leader_leo w b topic id (log_end_offset p)).0 topic
            id _ q
            (same_topics b (update_leader_leo w b topic id (log_end_offset p)).0 topic id (
                update_replica_leo-topics w b topic id b.local_id (log_end_offset p)
                  (log_end_offset p))
              ∙ there);
      holds = subst (λ l. LogHolds l lowest xs) (sym (set_high_watermark-log p _)) h;
      rises =
          subst
            (λ z.
              z
              ≤ℤ (set_high_watermark p
                  (update_leader_leo w b topic id (log_end_offset p)).1).high_watermark)
            same
            (set_high_watermark-mono p (update_leader_leo w b topic id (log_end_offset p)).1).0;
      waits =
          ap (λ l. ack_at acks topic id (record p { log = l }))
            (sym (set_high_watermark-log p (update_leader_leo w b topic id (log_end_offset p)).1));
    }

module _ (w : World) (acks : ℤ) (topic : Bytes) (id : ℤ) (b : Broker) (p : Partition) (lowest : ℕ)
    (rs : List Record) (rec : Record) (recs : List Record)
    (there : find_partition b topic id ≡ some p) (h : LogHolds p.log lowest rs)
    (plain : All IsRecord (rec ∷ recs))
    (stamped : All IsRecord (stamped_from (lowest + length rs) (rec ∷ recs)))
    (room : too_large b (log_bytes (rec ∷ recs)) ≡ false) where
  abbrev Accepted : Broker × Produced → Type 0
  Accepted out =
      Produces acks topic id p.high_watermark lowest (lowest + length rs)
        (rs ++ stamped_from (lowest + length rs) (rec ∷ recs)) out

  abbrev req : ProduceRequestPartition
  req = record { partition_id = id; record_set = log_bytes (rec ∷ recs) }

  append_decoded-Produces : Accepted (append_decoded w acks topic id b p (rec ∷ recs, false))
  unfolding append_decoded append_batch
  append_decoded-Produces =
      after_append-Produces w acks topic id p.high_watermark b lowest (lowest + length rs) _ p
        (append_batch p w.now (rec ∷ recs)) there g.first g.no_error refl g.holds
    where
      g :
          LoggedAll lowest
            (lowest + length rs)
            (rs ++ stamped_from (lowest + length rs) (rec ∷ recs))
            (Log.append_batch p.log w.now (rec ∷ recs))
      g = append_batch-LoggedAll p.log w.now lowest rs rec recs h stamped

  produce_records-Produces : Accepted (produce_records w acks topic req b p)
  unfolding produce_records
  produce_records-Produces = rw room (
      subst (λ d. Accepted (append_decoded w acks topic id b p d))
        (sym (
          decode_records-log_bytes (suc (length (log_bytes (rec ∷ recs)))) (rec ∷ recs) plain
            (omega (arith, length-log_bytes (rec ∷ recs)))))
        append_decoded-Produces)

  module _ (epoch : ℤ) (t : IsrTracker)
      (leads : get_epoch b.epochs topic id ≡ some (epoch, b.local_id))
      (tracks : find_tracker b.trackers topic id ≡ some t)
      (enough : asks_all acks ≡ true → min_insync_replicas b ≤ length (get_isr t.replicas)) where
    lacks_none : asks_all acks ≡ true → lacks_replicas w b topic id ≡ (b, false)
    unfolding lacks_replicas get_or_create_isr_tracker tracked
    lacks_none all = rw tracks (
        ap (λ lacks. (b, lacks))
          (le→ltb_false (length (get_isr t.replicas)) (min_insync_replicas b) (enough all)))

    checked : (if asks_all acks then lacks_replicas w b topic id else (b, false)) ≡ (b, false)
    checked = elim (Bool-cases (asks_all acks)) [
      | inl all ↦ simp all (lacks_none all)
      | inr some_acks ↦ simp some_acks refl
    ]

    local_leads : is_leader b topic id ≡ (b, true)
    unfolding is_leader led_by
    local_leads =
        ap (led_by b topic id) leads ∙ ap (λ yes. (b, yes)) ((==ℤ_iff b.local_id b.local_id).1 refl)

    -- On a broker that leads the partition, with a tracker for it and, for acks=all, at least the
    -- required number of replicas in sync, a produce of the encodings of one record or more, all
    -- well formed also once stamped and within the limit on their size, to a log that holds the
    -- records rs from the offset lowest on is answered without an error and with the offset lowest
    -- + length rs; the partition's log then holds rs and the records, stamped with consecutive
    -- offsets, its high watermark has not fallen, and the produce is to wait, with acks=all only,
    -- until the high watermark has reached the end of that log.
    pub produce_partition-Produces : Accepted (produce_partition w acks topic b req)
    unfolding produce_partition produce_at as_leader check_replicas
    produce_partition-Produces =
        subst Accepted
          (sym (
            ap (produce_at w acks topic b req) there
            ∙ ap (as_leader w acks topic req p) local_leads
            ∙ ap (check_replicas w acks topic req p) checked))
          produce_records-Produces
