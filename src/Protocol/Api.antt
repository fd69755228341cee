-- ===== src/Protocol/Api.antt =====
-- internal/broker/broker.go: the APIs whose requests have a body of their own, by their keys.

pub data Api : Type 0 where
  produce fetch metadata create_topics join_group sync_group heartbeat leave_group offset_commit
        offset_fetch list_offsets :
      Api
