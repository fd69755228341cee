-- ===== src/Examples/Protocol.antt =====
-- Primitives, bodies and frames at concrete inputs.
use mini_kafka.Prelude.{◌≡◌, refl, [], ◌∷◌, inr, arith}
use mini_kafka.Prelude.Int.{pos, negsuc, signed}
use mini_kafka.Protocol.Stream.{Bytes, ok, err, frame_too_large, pure, read_full, ◌>>=◌}
use mini_kafka.Protocol.Trips.{Trips}
use mini_kafka.Protocol.Codec.{int32, get_int, of_be, put_string, string}
use mini_kafka.Protocol.Codec.Array.{put_array, read_capped_array, Trips-capped_array}
use mini_kafka.Protocol.Codec.RoundTrip.{Trips-string}
use mini_kafka.Protocol.Api.{Api}
use mini_kafka.Protocol.Requests.Fetch.{FetchRequest}
use mini_kafka.Protocol.Responses.Produce.{ProduceResponse}
use mini_kafka.Protocol.AnyRequest.{Request, encode_request, decode_request, encode_request-Trips}
use mini_kafka.Protocol.AnyRequest
use mini_kafka.Protocol.AnyResponse.{
  Response, encode_response, decode_response, encode_response-Trips,
}
use mini_kafka.Protocol.AnyResponse
use mini_kafka.Protocol.Frame.{
  RequestFrame, ResponseFrame, read_request_frame_with_limit, read_response_frame,
  write_request_frame, write_response_frame,
}
use mini_kafka.Protocol.Frame.RoundTrip.{write_request_frame-Trips, write_response_frame-Trips}
use mini_kafka.Protocol.Frame.Limits.{read_request_frame-over_limit}

abbrev orders : Bytes
orders = 111 ∷ 114 ∷ []

abbrev fetch_one : FetchRequest
fetch_one = record {
  max_wait_ms = pos 500;
  min_bytes = pos 1;
  max_bytes = pos 1048576;
  topics =
      record {
        name = orders;
        partitions =
            record { partition_id = pos 0; fetch_offset = pos 42; max_bytes = pos 4096 } ∷ [];
      }
      ∷ [];
}

fetch_one-IsWire : AnyRequest.IsWireBody (Request.fetch fetch_one)
unfolding AnyRequest.IsWireBody
fetch_one-IsWire = record {
  max_wait_ms = omega arith;
  min_bytes = omega arith;
  max_bytes = omega arith;
  count_topics = omega arith;
  topics = (
    record {
      name = omega arith;
      count_partitions = omega arith;
      partitions = (
        record { partition_id = omega arith; fetch_offset = omega arith; max_bytes = omega arith },
        tt,
      );
    },
    tt,
  );
}

encode_request-Trips_example :
    Trips
      (encode_request (Request.fetch fetch_one))
      (decode_request Api.fetch)
      (Request.fetch fetch_one)
encode_request-Trips_example = encode_request-Trips (Request.fetch fetch_one) fetch_one-IsWire

abbrev produced : ProduceResponse
produced = record {
  topics =
      record {
        name = orders;
        partitions =
            record {
              partition_id = pos 0;
              error_code = pos 6;
              base_offset = negsuc 0;
              log_append_time = negsuc 0;
            }
            ∷ [];
      }
      ∷ [];
}

produced-IsWire : AnyResponse.IsWireBody (Response.produce produced)
unfolding AnyResponse.IsWireBody
produced-IsWire = record {
  count_topics = omega arith;
  topics = (
    record {
      name = omega arith;
      count_partitions = omega arith;
      partitions = (
        record {
          partition_id = omega arith;
          error_code = omega arith;
          base_offset = omega arith;
          log_append_time = omega arith;
        },
        tt,
      );
    },
    tt,
  );
}

encode_response-Trips_example :
    Trips
      (encode_response (Response.produce produced))
      (decode_response Api.produce)
      (Response.produce produced)
encode_response-Trips_example = encode_response-Trips (Response.produce produced) produced-IsWire

Trips-capped_array_example :
    Trips (put_array put_string (orders ∷ [] ∷ [])) (read_capped_array string) (orders ∷ [] ∷ [])
Trips-capped_array_example =
    Trips-capped_array put_string string Trips-string (orders ∷ [] ∷ []) (omega arith)
      (omega arith, (omega arith, tt))

abbrev ping : RequestFrame
ping = record {
  size = pos 0;
  api_key = pos 3;
  api_version = pos 0;
  correlation_id = pos 77;
  client_id = 99 ∷ [];
  payload = 1 ∷ 2 ∷ 3 ∷ [];
}

write_request_frame-Trips_example :
    Trips
      (write_request_frame ping)
      (read_request_frame_with_limit (pos 1000))
      (record ping { size = pos 18 })
write_request_frame-Trips_example =
    write_request_frame-Trips (pos 1000) ping
      (record {
        api_key = omega arith;
        api_version = omega arith;
        correlation_id = omega arith;
        client_id = omega arith;
        fits = omega arith;
      })
      (inr (omega arith))

abbrev pong : ResponseFrame
pong = record { size = pos 0; correlation_id = pos 77; error_code = pos 0; payload = 4 ∷ 5 ∷ [] }

write_response_frame-Trips_example :
    Trips (write_response_frame pong) read_response_frame (record pong { size = pos 12 })
write_response_frame-Trips_example =
    write_response_frame-Trips pong
      (record { correlation_id = omega arith; error_code = omega arith; fits = omega arith })

over_size : int32 (0 ∷ 0 ∷ 0 ∷ 3 ∷ 7 ∷ 7 ∷ 7 ∷ 9 ∷ []) ≡ (ok (pos 3), 7 ∷ 7 ∷ 7 ∷ 9 ∷ [])
unfolding int32 get_int read_full ◌>>=◌ pure of_be signed
over_size = refl

read_request_frame-over_limit_example :
    read_request_frame_with_limit (pos 2) (0 ∷ 0 ∷ 0 ∷ 3 ∷ 7 ∷ 7 ∷ 7 ∷ 9 ∷ [])
    ≡ (err frame_too_large, 9 ∷ [])
read_request_frame-over_limit_example =
    read_request_frame-over_limit (pos 2) (0 ∷ 0 ∷ 0 ∷ 3 ∷ 7 ∷ 7 ∷ 7 ∷ 9 ∷ []) (7 ∷ 7 ∷ 7 ∷ [])
      (9 ∷ []) over_size (omega arith) (omega arith) (omega arith)
