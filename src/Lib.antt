-- ===== src/Lib.antt =====
-- Verification of mini-kafka, a message broker in Go that speaks a binary protocol over TCP and keeps
-- each partition as an append-only log of segments.
--
-- A client sends request frames; the server reads a frame, the broker decodes its body, appends to
-- or reads from the log of a partition, waits for the replicas where the producer asks for it, and
-- answers with a response frame. The parts and the files that model them:
--
-- - Protocol: the wire format. Protocol/Stream.antt has Go's readers and writers over bytes in memory
--   as steps that succeed, fail or panic; Protocol/Trips.antt says when a writer and a reader fit.
--   Protocol/Codec.antt is internal/protocol/codec.go (PutInt64 is put_int64, String is string, and so
--   on); Protocol/Codec/Array.antt the loops over arrays. Protocol/Frame.antt is
--   internal/protocol/frame.go. Protocol/Requests and Protocol/Responses have a module for each body of
--   internal/protocol/requests.go and responses.go, whose methods Encode and Decode are `encode` and
--   `decode`; Protocol/AnyRequest.antt and Protocol/AnyResponse.antt put them together by the API keys
--   of internal/broker/broker.go.
-- - Storage: Storage/Crc32c.antt and Storage/Record.antt are internal/storage/record.go;
--   Storage/Index.antt is internal/storage/index.go, with sort.Search in Storage/Search.antt;
--   Storage/Segment.antt is internal/storage/segment.go, whose state is the record Segment and whose
--   operations return the new state with a reply. Storage/Segment/Contents.antt says what it means
--   that a segment holds a list of records, and the modules beside it prove that append, flush and
--   read implement that list. Storage/Segment/Open.antt has NewSegment, Flush and Close,
--   Storage/Segment/ReadFrom.antt ReadFrom, and Storage/Config.antt the configuration.
--   Storage/Log.antt is internal/storage/log.go: the sealed segments and the active one, with the
--   rotation. Storage/Log/Contents.antt says what it means that a log holds a list of records from a
--   lowest offset on; the modules beside it prove what an append, a batch and a read do to that list.
--   Storage/Log/ReadFrom.antt has ReadFrom, Storage/Log/Retain.antt the retention, the flush by time
--   and Close, Storage/Rebuild.antt is rebuildSegment, by which a segment is recovered from its file,
--   and Storage/Log/Open.antt is NewLog, given what the directory holds.
-- - Replication: Replication/Isr.antt is internal/replication/isr.go (the log end offsets, the in-sync
--   set and the high watermark), Replication/Epoch.antt is epoch.go (the leader epochs),
--   Replication/Purgatory.antt the waiting produce requests of replication.go, and
--   Replication/Wire.antt the messages by which a follower fetches.
-- - Coordinator: Coordinator/Assignor.antt is the range assignor of internal/coordinator/assignor.go,
--   Coordinator/Assignor/RoundRobin.antt the other one. Coordinator/Offsets.antt is
--   internal/coordinator/offsets.go: the committed offsets, a cache in front of the logs.
--   Coordinator/Group.antt is a group of internal/coordinator/group.go with JoinGroup and the session
--   timeouts, Coordinator/Group/Sync.antt has SyncGroup, Heartbeat and LeaveGroup. SyncGroup is two
--   steps, up to its wait and from the end of the wait on. Coordinator/Group/Steps.antt puts the
--   operations together as steps in any order; Valid, Joining, Invariant, Generations and Fencing are
--   about the runs of such steps. Coordinator/Groups.antt is the coordinator's map of groups.
-- - Server: Server/Handler.antt is internal/server/handler.go, the dispatch of a request frame to the
--   handler of its API key, with its error codes and the recovery of panics.
-- - Broker: Broker/State.antt has the broker of internal/broker/broker.go with its topics, trackers and
--   registrations; Broker/Partition.antt, Broker/Topic.antt and Broker/Metadata.antt are partition.go,
--   topic.go and metadata.go beside it, with Murmur2 in Broker/Murmur.antt. Broker/Replicas.antt is
--   broker_replication.go. The handlers of broker.go are functions from the broker and the decoded
--   request to the broker and the response: Broker/Topics.antt has handleCreateTopics and
--   handleMetadata, Broker/Produce.antt handleProduce with waitForAcksAll, Broker/Fetch.antt
--   handleFetch and handleListOffsets, with the registrations of its wait in Broker/Listeners.antt,
--   Broker/Follower.antt handleReplicaFetch with the follower's side, and Broker/Handlers.antt the
--   handlers of offsets and the table of all of them. Broker/New.antt is New.
-- - Client: Client/Producer.antt is pkg/client/producer.go: the batches, which are pending or in
--   flight, with their waiters, and the round trip of a request, where the connection is an argument.
--   Client/Producer/Steps.antt puts its operations together as steps in any order.
-- - Examples: the theorems at concrete inputs.
--
-- Bytes are natural numbers, and a signed integer of Go is an integer with its width as a
-- hypothesis where the code writes it; conversions to unsigned widths keep their remainder. The
-- scan of a segment has as much fuel as there are bytes in view, and every record takes 33 of them
-- at least; the binary search has as many rounds as there are entries, and each round shortens the
-- interval. A mutex is not modelled: each operation is one step on the state, as the locks make it,
-- but for Commit of the offset store, which gives its lock back before it appends: commits that
-- overlap are left out. The flush of a producer's batch is a step of its own, and so are the two
-- ends of its Close. The time is an argument of the operations that ask for it. The directory of a
-- log is taken to hold no file for the base offset of a new segment. The leader of a rebalance is
-- the first key of a Go map, whose order is not defined: it is what an argument, `pick`, gives,
-- which is taken to be one of the members. The loops of a rebuild and of a segment's ReadFrom have
-- as much fuel as the file has bytes.
--
-- The replay of the offset store has a round more than its log has offsets, and gives nothing where
-- it has not ended by then. The surroundings of the broker's handlers are the record World: the
-- time, the content of checkpoint files and directories, whether the metadata file can be written,
-- and whether a topic's path leaves the data directory. A waiting request is two steps, up to its
-- wait and from the end of the wait on.
--
-- Not modelled: sockets, files and memory maps beyond the bytes that they hold, the metadata's JSON
-- included; Truncate of a log; the encoding of assignments; the start and the end of the coordinator
-- and of the broker; the broker's group handlers, which hand the decoded request on; the connections
-- and the loop of a follower; SendBatch and the fill ratio of the producer, the consumers, the
-- configuration file and the commands.
pub mod Prelude
pub mod Protocol
pub mod Storage
pub mod Broker
pub mod Replication
pub mod Coordinator
pub mod Server
pub mod Client
pub mod Examples
