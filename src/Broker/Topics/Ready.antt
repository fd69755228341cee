-- ===== src/Broker/Topics/Ready.antt =====
-- handleCreateTopics of internal/broker/broker.go: the state behind it.
use mini_kafka.Prelude.{
  ℕ, zero, suc, ◌<◌, ◌≡◌, refl, sym, ap, ◌∙◌, Bool, true, false, Option, none, some, List, [], ◌∷◌,
  get_elem?, str_eq_iff, if◌then◌else◌, arith,
}
use mini_kafka.Prelude.Int.{ℤ, pos, leb_ℤ, pos_part}
use mathlib.Core.Path.{subst}
use mini_kafka.Protocol.Stream.{Bytes}
use mini_kafka.Protocol.Requests.CreateTopics.{CreateTopicsRequestTopic}
use mini_kafka.Protocol.Responses.CreateTopics.{CreateTopicResponseTopic}
use mini_kafka.Server.Handler.{err_none}
use mini_kafka.Storage.Config.{Config, with_defaults}
use mini_kafka.Storage.Log.Contents.{IsUsable, LogHolds}
use mini_kafka.Storage.Log.Open.{SegmentFile}
use mini_kafka.Storage.Log.Open.Fresh.{new_log-Fresh}
use mini_kafka.Broker.Metadata.{
  TopicMeta, MetadataManager, Created, get_topic, create_topic, created, added,
}
use mini_kafka.Broker.Partition.{Partition, new_partition, is_valid_name}
use mini_kafka.Broker.Topic.{
  Topic, put_first, open_partitions, with_partitions, new_topic, get_partition,
}
use mini_kafka.Broker.State.{Broker, World, find_topic, find_partition}
use mini_kafka.Broker.Replicas.{init_topic_replication}
use mini_kafka.Broker.Replicas.Untouched.{init_topic_replication-Same, same_topics}
use mini_kafka.Broker.Topics.{add_topic, put_topic, finish_create, create_one, creation}
use mini_kafka.Broker.Codes.{err_invalid_partition_count, err_invalid_topic_exception}

-- A partition without records, and with nothing to see.
abbrev IsEmpty : Option Partition → Type 0
IsEmpty found =
    (p : Partition) × (found ≡ some p) × LogHolds p.log 0 [] × (p.high_watermark ≡ pos 0)

new_partition-IsEmpty :
    (c : Config) (now : ℕ) → IsUsable (with_defaults c) → IsEmpty (new_partition c [] now)
unfolding new_partition
new_partition-IsEmpty c now u =
    let f = new_log-Fresh c now u in
    rw f.made (record { log = f.log; high_watermark = _ }, refl, f.holds, ap pos f.end)

abbrev Opens : ℕ → Option (List Partition) → Type 0
Opens count out =
    (ps : List Partition) × (out ≡ some ps) × ((j : ℕ) → j < count → IsEmpty (get_elem? ps j))

put_first-Opens :
    (count : ℕ) (first : Option Partition) (rest : Option (List Partition))
    → IsEmpty first
    → Opens count rest
    → Opens (suc count) (put_first first rest)
put_first-Opens count first rest (p, e, h, hw) (ps, f, all) = (p ∷ ps, simp (e, f) refl, each)
  where
    each : (j : ℕ) → j < suc count → IsEmpty (get_elem? (p ∷ ps) j)
    each zero lt = (p, refl, h, hw)
    each (suc j) lt = all j (omega arith)

open_partitions-Opens :
    (c : Config) (files : ℕ → List SegmentFile) (now i count : ℕ)
    → IsUsable (with_defaults c)
    → ((j : ℕ) → files j ≡ [])
    → Opens count (open_partitions c files now i count)
unfolding open_partitions
open_partitions-Opens c files now i zero u h = ([], refl, λ j lt. absurd (omega arith))
open_partitions-Opens c files now i (suc count) u h =
    put_first-Opens count (new_partition c (files i) now)
      (open_partitions c files now (suc i) count)
      (subst (λ fs. IsEmpty (new_partition c fs now)) (sym (h i)) (new_partition-IsEmpty c now u))
      (open_partitions-Opens c files now (suc i) count u h)

-- In the map with the new topic in front.
found_first :
    (b : Broker) (name : Bytes) (t : Topic) (id : ℤ)
    → t.name ≡ name
    → find_partition (record b { topics = t ∷ b.topics }) name id ≡ get_partition t id
unfolding find_partition find_topic
found_first b name t id e = simp ((str_eq_iff t.name name).1 e) refl

create_topic-stored :
    (mm : MetadataManager) (meta : TopicMeta) (saves : Bool)
    → get_topic mm meta.name ≡ none
    → saves ≡ true
    → create_topic mm saves meta.name meta.num_partitions meta.replication_factor
      ≡ (meta ∷ mm, created meta)
unfolding create_topic added
create_topic-stored mm meta saves absent saved = ap (added mm saves meta) absent ∙ simp saved refl

get_topic-stored :
    (mm : MetadataManager) (meta : TopicMeta) → get_topic (meta ∷ mm) meta.name ≡ some meta
unfolding get_topic
get_topic-stored mm meta = simp ((str_eq_iff meta.name meta.name).1 refl) refl

module _ (w : World) (b : Broker) (req : CreateTopicsRequestTopic) (n : ℕ)
    (usable : IsUsable (with_defaults b.config.log)) (empty : (j : ℕ) → w.files req.name j ≡ [])
    (count : req.num_partitions ≡ pos n) where
  -- The topic is answered without an error, and all its partitions are there and empty.
  pub record IsReady (out : Broker × CreateTopicResponseTopic) : Type 0 where
    pub answered : out.1.error_code ≡ err_none
    pub partitions : (i : ℕ) → i < n → IsEmpty (find_partition out.0 req.name (pos i))
    pub saved : (meta : TopicMeta) × (get_topic out.0.metadata req.name ≡ some meta)

  put_topic-IsReady :
      (b' : Broker) (meta : TopicMeta) (opened : Option (List Partition))
      → get_topic b'.metadata req.name ≡ some meta
      → Opens n opened
      → IsReady (put_topic w b' req.name req.num_partitions (with_partitions req.name opened))
  unfolding put_topic add_topic get_partition
  put_topic-IsReady b' meta opened kept (ps, e, each) =
      subst (λ o. IsReady (put_topic w b' req.name req.num_partitions (with_partitions req.name o)))
        (sym e)
        (record {
          answered = refl;
          partitions = λ i lt.
              subst IsEmpty
                (sym (
                  same_topics with_topic
                    (init_topic_replication w with_topic req.name req.num_partitions) req.name
                    (pos i) same.0
                  ∙ found_first b' req.name t (pos i) refl))
                (each i lt);
          saved = (meta, ap (λ mm. get_topic mm req.name) same.1 ∙ kept);
        })
    where
      t : Topic
      t = record { name = req.name; partitions = ps; round_robin_counter = 0 }

      with_topic : Broker
      with_topic = record b' { topics = t ∷ b'.topics }

      same :
          ((init_topic_replication w with_topic req.name req.num_partitions).topics
            ≡ with_topic.topics)
          × ((init_topic_replication w with_topic req.name req.num_partitions).metadata
              ≡ with_topic.metadata)
      same = init_topic_replication-Same w with_topic req.name req.num_partitions

  -- For a topic with a legal name that is not there yet and one partition at least, with
  -- directories that are empty, a configuration of the logs that allows an index entry and
  -- positions of 32 bits, and a metadata file that can be written: its creation is answered without
  -- an error, the metadata has it, and each of its partitions is there, with an open log that holds
  -- no record, and the high watermark 0.
  pub create_one-IsReady :
      is_valid_name w.escapes req.name ≡ true
      → 0 < n
      → get_topic b.metadata req.name ≡ none
      → w.saves ≡ true
      → IsReady (create_one w b req)
  unfolding create_one finish_create new_topic
  create_one-IsReady legal some_partition absent saves =
      subst IsReady (sym (ap choose legal ∙ ap choose_counted counted ∙ ap finished stored)) (
        put_topic-IsReady (record b { metadata = meta ∷ b.metadata }) meta
          (open_partitions b.config.log (w.files req.name) w.now 0 (pos_part req.num_partitions))
          (found_meta b.metadata)
          (subst
            (λ z. Opens n (open_partitions b.config.log (w.files req.name) w.now 0 (pos_part z)))
            (sym count)
            (open_partitions-Opens b.config.log (w.files req.name) w.now 0 n usable empty)))
    where
      meta : TopicMeta
      meta = record {
        name = req.name;
        num_partitions = req.num_partitions;
        replication_factor = req.replication_factor;
      }

      out : MetadataManager × Created
      out = create_topic b.metadata w.saves req.name req.num_partitions req.replication_factor

      finished : MetadataManager × Created → Broker × CreateTopicResponseTopic
      finished o = finish_create w (record b { metadata = o.0 }) req o.1

      choose_counted : Bool → Broker × CreateTopicResponseTopic
      choose_counted c =
          if c then (b, creation req.name err_invalid_partition_count) else finished out

      choose : Bool → Broker × CreateTopicResponseTopic
      choose c =
          if c
          then choose_counted (leb_ℤ req.num_partitions (pos 0))
          else (b, creation req.name err_invalid_topic_exception)

      counted : leb_ℤ req.num_partitions (pos 0) ≡ false
      counted = rw count (ground arith)

      stored : out ≡ (meta ∷ b.metadata, created meta)
      stored = create_topic-stored b.metadata meta w.saves absent saves

      found_meta : (mm : MetadataManager) → get_topic (meta ∷ mm) req.name ≡ some meta
      found_meta mm = get_topic-stored mm meta
