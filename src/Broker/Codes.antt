-- ===== src/Broker/Codes.antt =====
-- internal/server/handler.go: the protocol error codes that only the broker's handlers use.
use mini_kafka.Prelude.Int.{ℤ, pos}

abbrev pub err_corrupt_message : ℤ
err_corrupt_message = pos 3

abbrev pub err_unknown_topic_or_partition : ℤ
err_unknown_topic_or_partition = pos 4

abbrev pub err_not_leader_for_partition : ℤ
err_not_leader_for_partition = pos 5

abbrev pub err_message_too_large : ℤ
err_message_too_large = pos 7

abbrev pub err_not_enough_replicas : ℤ
err_not_enough_replicas = pos 8

abbrev pub err_topic_already_exists : ℤ
err_topic_already_exists = pos 14

abbrev pub err_invalid_partition_count : ℤ
err_invalid_partition_count = pos 15

abbrev pub err_invalid_topic_exception : ℤ
err_invalid_topic_exception = pos 17
