-- ===== src/Broker/Follower/Watermark.antt =====
-- followerFetchOnce of internal/broker/broker_replication.go: the high watermark of a follower.
use mini_kafka.Prelude.{Bool-cases, inl, inr, ◌⊎◌, arith}
use mini_kafka.Prelude.Int.{ℤ, ◌≤ℤ◌, ◌<ℤ◌, leb_ℤ}
use mini_kafka.Broker.Partition.{Partition, set_high_watermark, log_end_offset}
use mini_kafka.Broker.Follower.{adopt}

-- What is adopted from the leader never takes the high watermark back, and takes it to the leader's
-- only as far as the follower's own log goes: a high watermark within the log stays within it.
pub adopt-Within :
    (p : Partition) (hw : ℤ)
    → p.high_watermark ≤ℤ log_end_offset p
    → (p.high_watermark ≤ℤ (adopt p hw).high_watermark)
      × ((adopt p hw).high_watermark ≤ℤ log_end_offset (adopt p hw))
      × ((log_end_offset p <ℤ hw) ⊎ (hw ≤ℤ (adopt p hw).high_watermark))
unfolding adopt set_high_watermark
adopt-Within p hw h = elim (Bool-cases (leb_ℤ hw (log_end_offset p))) [
  | inl within ↦ (ground arith, ground arith, inr (ground arith))
  | inr above ↦ (ground arith, ground arith, inl (ground arith))
]
