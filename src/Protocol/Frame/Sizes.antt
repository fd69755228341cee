-- ===== src/Protocol/Frame/Sizes.antt =====
-- How many bytes a frame's body takes.
use mini_kafka.Prelude.{ℕ, ◌+◌, ◌≤◌, length}
use mini_kafka.Protocol.Codec.{max_int16, max_int32}
use mini_kafka.Protocol.Codec.Sizes.{
  Appends, Appends-seq, Appends-int16, Appends-int32, Appends-string, Appends-bytes,
}
use mini_kafka.Protocol.Frame.{RequestFrame, ResponseFrame, put_request_body, put_response_body}

abbrev pub request_size : RequestFrame → ℕ
request_size f = 2 + (2 + (4 + ((2 + length f.client_id) + (4 + length f.payload))))

abbrev pub response_size : ResponseFrame → ℕ
response_size f = 4 + (2 + (4 + length f.payload))

pub put_request_body-Appends :
    (f : RequestFrame)
    → length f.client_id ≤ max_int16
    → length f.payload ≤ max_int32
    → Appends (request_size f) (put_request_body f)
unfolding put_request_body
put_request_body-Appends f hc hp = Appends-seq 2 _ (Appends-int16 f.api_key) (
    Appends-seq 2 _ (Appends-int16 f.api_version) (
      Appends-seq 4 _ (Appends-int32 f.correlation_id) (
        Appends-seq (2 + length f.client_id) _ (Appends-string f.client_id hc)
          (Appends-bytes f.payload hp))))

pub put_response_body-Appends :
    (f : ResponseFrame)
    → length f.payload ≤ max_int32
    → Appends (response_size f) (put_response_body f)
unfolding put_response_body
put_response_body-Appends f hp =
    Appends-seq 4 _ (Appends-int32 f.correlation_id)
      (Appends-seq 2 _ (Appends-int16 f.error_code) (Appends-bytes f.payload hp))
