-- ===== src/Ingest/Orchestrator.antt =====
-- internal/ingest/orchestrator.go: where a log entry is written. The orchestrator and the server of a
-- node share one manager and one index, which stand in the state here. A local orchestrator has no
-- reader of the cluster state and, with no shards, never asks for one. The metrics, and the request
-- ID in the context, are left out.
pub mod Laws
use distributed_log_query_en.Ingest.Router.{shard_id}
use distributed_log_query_en.Replication.{enqueue, Replicator}
use distributed_log_query_en.Index.{add, Index}
use distributed_log_query_en.Prelude.PathSet.{contains}
use distributed_log_query_en.Storage.Manager.{Store}
use distributed_log_query_en.Storage.Manager.Write.{after_failed_append, append_with_path}
use distributed_log_query_en.Rpc.{Code}
use distributed_log_query_en.Cluster.{ClusterStateReader}
use distributed_log_query_en.Storage.Bloom.{BloomLib}
use distributed_log_query_en.Prelude.Result.{ok, err, Result}
use distributed_log_query_en.Types.{LogEntry, Codec}
use distributed_log_query_en.Ingest.Convert.{generate_id, proto_to_entry}
use distributed_log_query_en.Prelude.Int.{pos, ℤ}
use distributed_log_query_en.Prelude.Text.{text_key, Text}
use distributed_log_query_en.Prelude.{
  ltb, none, some, List, false, true, nat_eqb, ◌==◌, if◌then◌else◌, Bool, ℕ, Option, [], ◌∷◌,
}

pub record Orchestrator (Filter : Type 0) : Type 0 where
  pub node_id : Text
  pub total_shards : ℕ
  pub state_reader : ClusterStateReader
  pub store : Store Filter
  pub idx : Index
  pub replicator : Option Replicator
  -- the addresses whose clients are cached
  pub clients : List Text

pub record IngestRequest : Type 0 where
  pub entry : Option LogEntry

pub record IngestResponse : Type 0 where
  pub id : Text
  pub ok : Bool

-- The clock and the random digits at the time of a write.
pub record Arrival : Type 0 where
  pub now : ℤ
  pub random_hex : Text

-- The other nodes: whether gRPC makes a client for an address, and what a call of `Ingest` answers.
pub record Peers : Type 0 where
  pub dial : Text → Bool
  pub ingest : Text → IngestRequest → Result Code IngestResponse

-- The entry that `writeLocal` stores.
unfoldable pub received : Arrival → LogEntry → LogEntry
unfolding proto_to_entry
received a pb =
    let e = record (proto_to_entry pb) { received_at = a.now } in
    if e.id == [] then record e { id = generate_id a.random_hex } else e

module _ {Filter : Type 0} where
  unfoldable pub new_orchestrator :
      Text → ℕ → ClusterStateReader → Store Filter → Index → Option Replicator → Orchestrator Filter
  new_orchestrator node_id total_shards reader st idx replicator = record {
    node_id = node_id;
    total_shards = total_shards;
    state_reader = reader;
    store = st;
    idx = idx;
    replicator = replicator;
    clients = [];
  }

  -- Asynchronous replication, if the replica and its address are known.
  unfoldable pub replicate : Text → LogEntry → Orchestrator Filter → Orchestrator Filter
  replicate replica e o = if replica == [] then o else elim o.replicator [
    | none ↦ o
    | some r ↦
        let addr = o.state_reader.node_address replica in
        if addr == [] then o else record o {
          replicator = some (
              enqueue e
                (if ltb 0 o.total_shards then shard_id e.namespace e.service o.total_shards else 0)
                addr r);
        }
  ]

  -- The answer to a write, and the replication of one that succeeded.
  unfoldable pub acknowledge :
      Text
      → LogEntry
      → Bool × Orchestrator Filter
      → Result Code IngestResponse × Orchestrator Filter
  unfolding replicate
  acknowledge replica e (false, o) = (err Code.internal, o)
  acknowledge replica e (true, o) = (ok (record { id = e.id; ok = true }), replicate replica e o)

  unfoldable pub get_or_create_client :
      (Text → Bool) → Text → Orchestrator Filter → Bool × Orchestrator Filter
  get_or_create_client dial addr o =
      if contains o.clients addr
      then (true, o)
      else if dial addr
      then (true, record o { clients = addr ∷ o.clients })
      else (false, o)

  unfoldable pub forward :
      Peers
      → IngestRequest
      → Text
      → Orchestrator Filter
      → Result Code IngestResponse × Orchestrator Filter
  unfolding get_or_create_client
  forward peers req primary o =
      let addr = o.state_reader.node_address primary in
      if addr == []
      then (err Code.unavailable, o)
      else let (connected, o') = get_or_create_client peers.dial addr o in
        if connected then (peers.ingest addr req, o') else (err Code.unavailable, o')

module _ (codec : Codec) (lib : BloomLib) where
  open lib use {Filter}

  -- The append and the index entry for it; whether the append succeeded.
  unfoldable pub append_and_add : LogEntry → Orchestrator Filter → Bool × Orchestrator Filter
  append_and_add e o = elim (append_with_path codec lib e o.store) [
    | err _ ↦ (false, record o { store = after_failed_append codec lib e o.store })
    | ok (seg_path, st) ↦ (true, record o { store = st; idx = add e seg_path o.idx })
  ]

  unfoldable pub write_local :
      Arrival
      → LogEntry
      → Text
      → Orchestrator Filter
      → Result Code IngestResponse × Orchestrator Filter
  unfolding append_and_add acknowledge received
  write_local a pb replica o = let e = received a pb in acknowledge replica e (append_and_add e o)

  -- The routing of a valid entry.
  unfoldable pub route :
      Peers
      → Arrival
      → LogEntry
      → Orchestrator Filter
      → Result Code IngestResponse × Orchestrator Filter
  unfolding write_local forward
  route peers a pb o =
      if nat_eqb o.total_shards 0
      then write_local a pb [] o
      else let (primary, replica) =
          o.state_reader.shard_owners (pos (shard_id pb.namespace pb.service o.total_shards)) in
        if primary == []
        then (err Code.unavailable, o)
        else if primary == o.node_id
        then write_local a pb replica o
        else forward peers (record { entry = some pb }) primary o

  unfoldable pub handle_ingest :
      Peers
      → Arrival
      → IngestRequest
      → Orchestrator Filter
      → Result Code IngestResponse × Orchestrator Filter
  unfolding route
  handle_ingest peers a req o = elim req.entry [
    | none ↦ (err Code.invalid_argument, o)
    | some pb ↦
        if pb.service == []
        then (err Code.invalid_argument, o)
        else if pb.message == []
        then (err Code.invalid_argument, o)
        else route peers a pb o
  ]
