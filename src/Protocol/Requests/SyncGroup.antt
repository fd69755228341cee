-- ===== src/Protocol/Requests/SyncGroup.antt =====
-- internal/protocol/requests.go: the SyncGroup request (apiKey 5).
use mini_kafka.Prelude.{All, List, length, ◌≤◌}
use mini_kafka.Prelude.Int.{IsInt32, ℤ}
use mini_kafka.Protocol.Stream.{Bytes, Reader, Writer, pure, ◌>>=◌, ◌>>◌}
use mini_kafka.Protocol.Trips.{Trips, Trips-last, Trips-seq}
use mini_kafka.Protocol.Codec.{
  bytes, int32, max_bytes_length, max_int16, put_bytes, put_int32, put_string, safety_limit, string,
}
use mini_kafka.Protocol.Codec.Array.{Trips-capped_array, put_array, read_capped_array}
use mini_kafka.Protocol.Codec.RoundTrip.{Trips-bytes, Trips-int32, Trips-string}

pub record SyncGroupAssignment : Type 0 where
  pub member_id : Bytes
  pub assignment : Bytes

pub record SyncGroupRequest : Type 0 where
  pub group_id : Bytes
  pub generation_id : ℤ
  pub member_id : Bytes
  pub assignments : List SyncGroupAssignment

put_assignment : SyncGroupAssignment → Writer
put_assignment a = do put_string a.member_id; put_bytes a.assignment

pub encode : SyncGroupRequest → Writer
encode r = do
  put_string r.group_id
  put_int32 r.generation_id
  put_string r.member_id
  put_array put_assignment r.assignments

get_assignment : Reader SyncGroupAssignment
get_assignment = do
  member_id ← string
  assignment ← bytes
  pure (record { member_id = member_id; assignment = assignment })

pub decode : Reader SyncGroupRequest
decode = do
  group_id ← string
  generation_id ← int32
  member_id ← string
  assignments ← read_capped_array get_assignment
  pure (record {
    group_id = group_id;
    generation_id = generation_id;
    member_id = member_id;
    assignments = assignments;
  })

pub record IsWireAssignment (a : SyncGroupAssignment) : Type 0 where
  pub member_id : length a.member_id ≤ max_int16
  pub assignment : length a.assignment ≤ max_bytes_length

pub record IsWire (r : SyncGroupRequest) : Type 0 where
  pub group_id : length r.group_id ≤ max_int16
  pub generation_id : IsInt32 r.generation_id
  pub member_id : length r.member_id ≤ max_int16
  pub count_assignments : length r.assignments ≤ safety_limit
  pub assignments : All IsWireAssignment r.assignments

put_assignment-Trips :
    (a : SyncGroupAssignment) → IsWireAssignment a → Trips (put_assignment a) get_assignment a
unfolding put_assignment get_assignment
put_assignment-Trips a h =
    Trips-seq _ _ (Trips-string _ h.member_id) (Trips-last _ _ (Trips-bytes _ h.assignment))

-- What SyncGroupRequest writes is read back whole, wherever it stands in the stream.
pub encode-Trips : (r : SyncGroupRequest) → IsWire r → Trips (encode r) decode r
unfolding encode decode
encode-Trips r h = Trips-seq _ _ (Trips-string _ h.group_id) (
    Trips-seq _ _ (Trips-int32 _ h.generation_id) (
      Trips-seq _ _ (Trips-string _ h.member_id) (
        Trips-last _ _
          (Trips-capped_array _ _ put_assignment-Trips _ h.count_assignments h.assignments))))
