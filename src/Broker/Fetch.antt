-- ===== src/Broker/Fetch.antt =====
-- internal/broker/broker.go: handleFetch with its long poll, and ListOffsets. The long poll is the
-- registration of the channel, the wait, during which other requests take their steps, and the end
-- of the registration, before the request is answered.
pub mod Committed
pub mod Leaks
use mini_kafka.Prelude.{
  ℕ, Bool, true, false, Option, none, some, List, [], ◌∷◌, ◌||◌, if◌then◌else◌,
}
use mini_kafka.Prelude.Int.{ℤ, pos, negsuc, ltb_ℤ, leb_ℤ, ◌==ℤ◌}
use mini_kafka.Protocol.Stream.{Bytes, Result, ok, err, eof}
use mini_kafka.Protocol.Requests.Fetch.{FetchRequest, FetchRequestTopic, FetchRequestPartition}
use mini_kafka.Protocol.Requests.ListOffsets.{
  ListOffsetsRequest, ListOffsetsRequestTopic, ListOffsetsRequestPartition,
}
use mini_kafka.Protocol.Responses.Fetch.{FetchResponse, FetchResponseTopic, FetchResponsePartition}
use mini_kafka.Protocol.Responses.ListOffsets.{
  ListOffsetsResponse, ListOffsetsResponseTopic, ListOffsetsResponsePartition,
}
use mini_kafka.Server.Handler.{err_none, err_unknown}
use mini_kafka.Storage.Record.{Record, encode}
use mini_kafka.Storage.Segment.{decode_failed}
use mini_kafka.Storage.Log.{LogError, segment_failed}
use mini_kafka.Storage.Log.ReadFrom.{Found}
use mini_kafka.Broker.Codes.{err_unknown_topic_or_partition}
use mini_kafka.Broker.Partition.{Partition, read_from, log_start_offset, log_end_offset}
use mini_kafka.Broker.State.{Broker, find_partition, with_partition}
use mini_kafka.Broker.Listeners.{register_listener_on, unregister_listener}

pub record FetchTarget : Type 0 where
  pub topic : Bytes
  pub partition : ℤ
  pub target_offset : ℤ

-- fetchTargetHasNewData
pub has_new_data : Broker → FetchTarget → Bool
has_new_data b t = elim (find_partition b t.topic t.partition) [
  | none ↦ false
  | some p ↦ ltb_ℤ t.target_offset (log_end_offset p)
]

-- A round of the long poll: it ends if a target has new data.
pub any_data : Broker → List FetchTarget → Bool
unfolding has_new_data
any_data b [] = false
any_data b (t ∷ ts) = has_new_data b t || any_data b ts

abbrev pub registered_for : FetchTarget → ℕ → Broker → Broker
registered_for t ch b = record b {
  listeners = register_listener_on b.listeners t.topic t.partition ch;
}

abbrev pub unregistered_for : FetchTarget → ℕ → Broker → Broker
unregistered_for t ch b = record b {
  listeners = unregister_listener b.listeners t.topic t.partition ch;
}

-- The channel on every target, and off every one again.
unfoldable pub register_all : List FetchTarget → ℕ → Broker → Broker
register_all [] ch b = b
register_all (t ∷ ts) ch b = register_all ts ch (registered_for t ch b)

unfoldable pub unregister_all : List FetchTarget → ℕ → Broker → Broker
unregister_all [] ch b = b
unregister_all (t ∷ ts) ch b = unregister_all ts ch (unregistered_for t ch b)

-- errors.Is(err, io.EOF)
pub is_eof : LogError → Bool
is_eof (segment_failed (decode_failed eof)) = true
is_eof e = false

abbrev encode_rest :
    Result (Unit {0}) × Bytes → (Bytes → Result (Unit {0}) × Bytes) → Result (Unit {0}) × Bytes
encode_rest (err e, buf) further = (err e, buf)
encode_rest (ok u, buf) further = further buf

-- The records below the high watermark, up to the first that is not, behind what the buffer has.
unfoldable pub encode_visible : ℤ → List Record → Bytes → Result (Unit {0}) × Bytes
encode_visible hw [] buf = (ok tt, buf)
encode_visible hw (r ∷ rs) buf =
    let further = encode_visible hw rs in
    if leb_ℤ hw r.offset then (ok tt, buf) else encode_rest (encode r buf) further

unfoldable pub fetched : ℤ → Partition → ℤ → Bytes → FetchResponsePartition
fetched id p code record_set = record {
  partition_id = id;
  error_code = code;
  high_watermark = p.high_watermark;
  log_start_offset = log_start_offset p;
  record_set = record_set;
}

unfoldable pub encoded : ℤ → Partition → Result (Unit {0}) × Bytes → FetchResponsePartition
unfolding fetched
encoded id p (err e, buf) = fetched id p err_unknown []
encoded id p (ok u, buf) = fetched id p err_none buf

unfoldable pub shown : ℤ → Partition → List Record → FetchResponsePartition
unfolding encoded encode_visible
shown id p rs = encoded id p (encode_visible p.high_watermark rs [])

-- The response for what ReadFrom gives.
unfoldable pub fetch_found : ℤ → Partition → Found → FetchResponsePartition
unfolding shown is_eof fetched
fetch_found id p (rs, none) = shown id p rs
fetch_found id p (rs, some e) = if is_eof e then shown id p rs else fetched id p err_unknown []

abbrev unknown : ℤ → FetchResponsePartition
unknown id = record {
  partition_id = id;
  error_code = err_unknown_topic_or_partition;
  high_watermark = pos 0;
  log_start_offset = pos 0;
  record_set = [];
}

unfoldable pub read_and_show :
    Bytes
    → FetchRequestPartition
    → Broker
    → Partition
    → Partition × Found
    → Broker × FetchResponsePartition
unfolding fetch_found
read_and_show topic req b p (p', found) =
    (with_partition b topic req.partition_id p', fetch_found req.partition_id p found)

-- One partition of the request, as far as it is there. A read flushes the partition's log, so that
-- the state changes.
unfoldable pub fetch_at :
    Bytes → FetchRequestPartition → Broker → Option Partition → Broker × FetchResponsePartition
unfolding fetched read_and_show
fetch_at topic req b none = (b, unknown req.partition_id)
fetch_at topic req b (some p) =
    if leb_ℤ p.high_watermark req.fetch_offset
    then (b, fetched req.partition_id p err_none [])
    else read_and_show topic req b p (read_from p req.fetch_offset req.max_bytes)

unfoldable pub fetch_partition :
    Bytes → Broker → FetchRequestPartition → Broker × FetchResponsePartition
unfolding fetch_at
fetch_partition topic b req = fetch_at topic req b (find_partition b topic req.partition_id)

pub fetch_partitions :
    Bytes → Broker → List FetchRequestPartition → Broker × List FetchResponsePartition
fetch_partitions topic b [] = (b, [])
fetch_partitions topic b (req ∷ reqs) =
    let (b', out) = fetch_partition topic b req in
    let (b'', outs) = fetch_partitions topic b' reqs in (b'', out ∷ outs)

pub fetch_topics : Broker → List FetchRequestTopic → Broker × List FetchResponseTopic
unfolding fetch_partitions
fetch_topics b [] = (b, [])
fetch_topics b (req ∷ reqs) =
    let (b', outs) = fetch_partitions req.name b req.partitions in
    let (b'', rest) = fetch_topics b' reqs in
    (b'', record { name = req.name; partitions = outs } ∷ rest)

-- handleFetch behind the long poll, on the decoded request.
pub handle_fetch : Broker → FetchRequest → Broker × FetchResponse
unfolding fetch_topics
handle_fetch b req = let (b', outs) = fetch_topics b req.topics in (b', record { topics = outs })

-- One partition of a ListOffsets request: -2 asks for the start of the log.
unfoldable pub list_partition :
    Broker → Bytes → ListOffsetsRequestPartition → ListOffsetsResponsePartition
list_partition b topic req = elim (find_partition b topic req.partition_id) [
  | none ↦ record {
    partition_id = req.partition_id;
    error_code = err_unknown_topic_or_partition;
    offset = negsuc 0;
  }
  | some p ↦ record {
    partition_id = req.partition_id;
    error_code = err_none;
    offset = if req.timestamp ==ℤ negsuc 1 then log_start_offset p else log_end_offset p;
  }
]

list_partitions :
    Broker → Bytes → List ListOffsetsRequestPartition → List ListOffsetsResponsePartition
list_partitions b topic [] = []
list_partitions b topic (req ∷ reqs) = list_partition b topic req ∷ list_partitions b topic reqs

list_topics : Broker → List ListOffsetsRequestTopic → List ListOffsetsResponseTopic
unfolding list_partitions
list_topics b [] = []
list_topics b (req ∷ reqs) =
    record { name = req.name; partitions = list_partitions b req.name req.partitions }
    ∷ list_topics b reqs

-- handleListOffsets, on the decoded request.
pub handle_list_offsets : Broker → ListOffsetsRequest → ListOffsetsResponse
unfolding list_topics
handle_list_offsets b req = record { topics = list_topics b req.topics }
