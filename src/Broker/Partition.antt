-- ===== src/Broker/Partition.antt =====
-- internal/broker/partition.go: a partition, its log with the high watermark, and the rule for topic
-- names. The writer goroutine takes one append at a time, so an append is a step; a partition is
-- closed only with the broker, and is not modelled any further from there on. The path check behind
-- the rule for names, by package filepath, is an argument.
use mini_kafka.Prelude.{
  ℕ, Bool, true, Option, none, some, List, [], ◌∷◌, ◌&&◌, ◌||◌, not, leb, ◌==◌, str_eq, length,
  if◌then◌else◌, ◌≡◌, arith,
}
use mini_kafka.Prelude.Int.{ℤ, pos, ltb_ℤ, ◌≤ℤ◌}
use mini_kafka.Protocol.Stream.{Bytes}
use mini_kafka.Storage.Config.{Config}
use mini_kafka.Storage.Record.{Record}
use mini_kafka.Storage.Log.{
  Log, LogError, LogReply, returned, log_failed, lowest_offset, highest_offset,
}
use mini_kafka.Storage.Log.Open.{SegmentFile, new_log}
use mini_kafka.Storage.Log.ReadFrom.{Found}
use mini_kafka.Storage.Log
use mini_kafka.Storage.Log.ReadFrom

abbrev max_topic_name_len : ℕ
max_topic_name_len = 249

abbrev between : ℕ → ℕ → ℕ → Bool
between low high b = leb low b && leb b high

-- [a-zA-Z0-9._-]
is_name_byte : ℕ → Bool
is_name_byte b =
    between 97 122 b || (between 65 90 b || (between 48 57 b || (b == 46 || (b == 95 || b == 45))))

all_name_bytes : Bytes → Bool
unfolding is_name_byte
all_name_bytes [] = true
all_name_bytes (b ∷ bs) = let rest = all_name_bytes bs in is_name_byte b && rest

-- validateTopicName: no error.
unfoldable pub is_valid_name : (Bytes → Bool) → Bytes → Bool
unfolding all_name_bytes
is_valid_name escapes name =
    not (str_eq name [] || (str_eq name (46 ∷ []) || str_eq name (46 ∷ 46 ∷ [])))
    && (leb (length name) max_topic_name_len && (all_name_bytes name && not (escapes name)))

pub record Partition : Type 0 where
  pub log : Log
  pub high_watermark : ℤ

abbrev pub partition_of : LogReply Log → Option Partition
partition_of (log_failed e) = none
partition_of (returned l) = some (record { log = l; high_watermark = pos (highest_offset l) })

-- NewPartition, with what the directory of the partition holds.
unfoldable pub new_partition : Config → List SegmentFile → ℕ → Option Partition
new_partition cfg files now = partition_of (new_log cfg files now)

-- AppendBatch
unfoldable pub append_batch : Partition → ℕ → List Record → Partition × (ℕ × Option LogError)
append_batch p now recs =
    let (l, out) = Log.append_batch p.log now recs in (record p { log = l }, out)

-- ReadFrom
unfoldable pub read_from : Partition → ℤ → ℤ → Partition × Found
read_from p offset max_bytes =
    let (l, found) = ReadFrom.read_from p.log offset max_bytes in (record p { log = l }, found)

-- SetHighWatermark
unfoldable pub set_high_watermark : Partition → ℤ → Partition
set_high_watermark p hw = if ltb_ℤ p.high_watermark hw then record p { high_watermark = hw } else p

-- LogStartOffset and LogEndOffset
abbrev pub log_start_offset : Partition → ℤ
log_start_offset p = pos (lowest_offset p.log)

abbrev pub log_end_offset : Partition → ℤ
log_end_offset p = pos (highest_offset p.log)

pub set_high_watermark-mono :
    (p : Partition) (hw : ℤ)
    → (p.high_watermark ≤ℤ (set_high_watermark p hw).high_watermark)
      × (hw ≤ℤ (set_high_watermark p hw).high_watermark)
unfolding set_high_watermark
set_high_watermark-mono p hw = ground arith

pub set_high_watermark-log : (p : Partition) (hw : ℤ) → (set_high_watermark p hw).log ≡ p.log
unfolding set_high_watermark
set_high_watermark-log p hw = ground arith
