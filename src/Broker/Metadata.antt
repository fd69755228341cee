-- ===== src/Broker/Metadata.antt =====
-- internal/broker/metadata.go: the persisted metadata of topics. The map is a list, searched by
-- name; whether the write of the file succeeds is an argument.
use mini_kafka.Prelude.{
  Bool, true, false, Option, none, some, List, [], ◌∷◌, str_eq, if◌then◌else◌, map,
}
use mini_kafka.Prelude.Int.{ℤ}
use mini_kafka.Protocol.Stream.{Bytes}

pub record TopicMeta : Type 0 where
  pub name : Bytes
  pub num_partitions : ℤ
  pub replication_factor : ℤ

abbrev pub MetadataManager : Type 0
MetadataManager = List TopicMeta

-- GetTopic
unfoldable pub get_topic : MetadataManager → Bytes → Option TopicMeta
get_topic [] name = none
get_topic (meta ∷ mm) name =
    let rest = get_topic mm name in if str_eq meta.name name then some meta else rest

pub data Created : Type 0 where
  exists created : TopicMeta → Created
  not_saved : Created

abbrev stored : MetadataManager → Bool → TopicMeta → MetadataManager × Created
stored mm true meta = (meta ∷ mm, created meta)
stored mm false meta = (mm, not_saved)

unfoldable pub added :
    MetadataManager → Bool → TopicMeta → Option TopicMeta → MetadataManager × Created
added mm saves meta (some found) = (mm, exists found)
added mm saves meta none = stored mm saves meta

-- CreateTopic: a topic that exists is left as it is, and one that is not saved is taken back.
unfoldable pub create_topic : MetadataManager → Bool → Bytes → ℤ → ℤ → MetadataManager × Created
unfolding added
create_topic mm saves name num_partitions replication_factor =
    added mm saves
      (record {
        name = name;
        num_partitions = num_partitions;
        replication_factor = replication_factor;
      })
      (get_topic mm name)

-- ListTopics: the names, as the broker uses them; the code's map gives them in any order.
abbrev pub list_names : MetadataManager → List Bytes
list_names mm = map (λ meta. meta.name) mm
