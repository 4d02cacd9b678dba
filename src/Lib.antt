-- ===== src/Lib.antt =====
-- Verification of the distributed log query engine, a Go program that stores log entries in
-- append-only segment files, indexes them, and answers queries on one node or over a cluster.
--
-- The parts and how they work together. An ingested entry is hashed to a shard (internal/ingest) and
-- forwarded to the shard's primary, which appends it to its active segment (internal/storage), adds
-- it to its index (internal/index) and queues it for the replica (internal/replication). A replica
-- that comes back catches up from the primary. A query is parsed and executed on a node (internal/query): the index and
-- the bloom filters of the segments prune the segments that cannot match, the others are read,
-- filtered, sorted and cut to a page. The coordinator (internal/coordinator) asks every healthy node
-- and merges the answers. Which node owns which shard is decided by a replicated state machine
-- (internal/metadata); the storage nodes register with its leader, send heartbeats, and read the
-- routing from it (internal/cluster).
--
-- The files. Each module is named for the package or file that it models, and the functions keep
-- their names, in the spelling of this language.
--   Prelude             strings, byte lists, maps, sets, sorting, errors: the Go standard library
--                       as far as the code uses it. Text is a list of bytes; letter case and white
--                       space are those of ASCII. A Go map is an association list.
--   Types               pkg/types/log_entry.go, pkg/types/query.go. The measured time of a result
--                       is left out. `Codec` is the protobuf marshalling of an entry, a parameter:
--                       what was marshalled is read back.
--   Entries             removing repeated IDs and the order of entries, which the executor and the
--                       merge share.
--   Storage             internal/storage: Record (record.go), Segment (segment.go), Bloom (bloom.go),
--                       Read (read.go), Manager (manager.go), Compaction (compaction.go).
--                       The disk is a value: segment files by path, sidecars by
--                       path, and the ACTIVE marker. Calls of the operating system succeed, but a missing
--                       file is modelled. `BloomLib` is the bloom filter library,
--                       a parameter: a filter never forgets what was added. Sequence numbers wrap at
--                       2 ^ 64 and frame lengths are 32 bits.
--   Index               internal/index/index.go.
--   Query               internal/query: Parser (parser.go), Match and Executor (executor.go), Server
--                       (server.go).
--   Rpc                 the gRPC status codes.
--   Ingest              internal/ingest: Router (router.go), Convert (convert.go), Orchestrator
--                       (orchestrator.go), Server (server.go), CatchUp (catchup.go). The server and
--                       the orchestrator of a node share the manager and the index, so one state
--                       stands for both. The other nodes, the clock, the random digits of an ID, and
--                       the errors of a stream are arguments.
--   Replication         internal/replication/replicator.go: a channel is the list of the jobs that
--                       wait; the drain goroutine is a step.
--   Cluster             internal/cluster: the reader and cache of the cluster state (state_cache.go)
--                       in Cluster, Wire and Client (client.go), Heartbeat (heartbeat.go). The
--                       answers of the coordinators are arguments and may change from call to call.
--   Node                a storage node as cmd/node/main.go wires it: the write path and the executor
--                       over one manager and one index; what a node becomes that starts in an
--                       empty directory and takes writes.
--   Coordinator         internal/coordinator: Merge (merge.go), Cache (cache.go), FanOut (fanout.go
--                       and query_server.go), NodeClient (node_client.go). The nodes' answers, the order in which they arrive, the
--                       clock, the context and SHA-256 are arguments.
--   Metadata            internal/metadata: State (state.go), Fsm and Snapshot (fsm.go), Server (server.go),
--                       Liveness (liveness.go). The Raft library is an argument: whether this
--                       coordinator leads, how a command ends, and which commands come before it.
--   Tests               the theorems at concrete inputs.
--
-- State is passed explicitly: an operation that changes a manager and its disk takes the pair and
-- gives the pair, with an error as a value where the Go function returns one. Locks are left out:
-- every operation that holds one is a single step. So is a merge of segments, although `mergeRun` holds
-- no lock from its first step to its last: what other goroutines do in between is not modelled.
--
-- Fuel. `read_entries` takes the length of the file and one more, and each record takes at least
-- four bytes. The parser takes three times the number of tokens and three more; every level of the
-- grammar uses one unit and every atom a token. `send_chunks` takes the length of the payload, of
-- which each turn sends a byte at least. These are proved to be enough. A number in a cache key has at
-- most twenty digits, more than an int64 has. `beat` counts the attempts of
-- the source, and `register` the turns before the context ends.
--
-- Not modelled: failures of the operating system other than a missing file and the rename of
-- internal/storage/compaction.go, the clocks of timers, metrics,
-- logs, request IDs, configuration and the generated API.
pub mod Prelude
pub mod Types
pub mod Entries
pub mod Rpc
pub mod Cluster
pub mod Replication
pub mod Storage
pub mod Index
pub mod Query
pub mod Ingest
pub mod Node
pub mod Coordinator
pub mod Metadata
pub mod Tests
