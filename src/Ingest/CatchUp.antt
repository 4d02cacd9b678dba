-- ===== src/Ingest/CatchUp.antt =====
-- internal/ingest/catchup.go: how a node that comes back copies what the primaries of its replica
-- shards have. The operating system's calls are taken to succeed; a call of the primary may fail. The
-- log is left out.
use distributed_log_query_en.Index.{add_all}
use distributed_log_query_en.Prelude.Result.{ok, err}
use distributed_log_query_en.Ingest.Convert.{proto_to_entry}
use distributed_log_query_en.Cluster.{node_address}
use distributed_log_query_en.Prelude.PathSet.{contains}
use distributed_log_query_en.Prelude.Dict.{put, Dict}
use distributed_log_query_en.Metadata.State.{ShardRecord, ClusterState}
use distributed_log_query_en.Storage.Manager.{
  list_closed_segments, active_segment_name, segment_paths, load_segment,
}
use distributed_log_query_en.Storage.Disk.{remove_file, join_path, rename_file}
use distributed_log_query_en.Ingest.Server.{holds_shard, in_shard, bases}
use distributed_log_query_en.Storage.Read.{read_segments}
use distributed_log_query_en.Rpc.{Code}
use distributed_log_query_en.Storage.Bloom.{BloomLib}
use distributed_log_query_en.Prelude.Text.{text_key, text, Text}
use distributed_log_query_en.Ingest.Orchestrator.{append_and_add, Orchestrator}
use distributed_log_query_en.Types.{to_int32, Bytes, LogEntry, Codec}
use distributed_log_query_en.Prelude.{
  length, suc, ◌==◌, not, ◌||◌, ◌&&◌, [], ◌+◌, some, keep, ◌++◌, if◌then◌else◌, none, ◌∷◌, Option,
  List, ℕ,
}
use distributed_log_query_en.Prelude.Int.{pos, less, ℤ}
pub mod Laws

-- A primary, as a client sees it. A transfer is the chunks that were received and the error that
-- ended the stream, if it was not its end.
pub record Primary : Type 0 where
  pub list_segments : ℤ → Option (List Text)
  pub transfer : Text → ℤ → Option (List Bytes × Option Code)
  pub fetch : ℤ → ℤ → Option (List LogEntry)

-- The loop that finds the latest time of receipt in the shard.
unfoldable pub latest_of : ℕ → ℤ → ℤ → List LogEntry → ℤ
latest_of total_shards shard latest [] = latest
latest_of total_shards shard latest (e ∷ es) =
    latest_of total_shards shard
      (if in_shard total_shards shard e && less latest e.received_at then e.received_at else latest)
      es

unfoldable pub ids_since : ℕ → ℤ → ℤ → List LogEntry → List Text
ids_since total_shards shard since_ns [] = []
ids_since total_shards shard since_ns (e ∷ es) =
    let rest = ids_since total_shards shard since_ns es in
    if in_shard total_shards shard e && not (less e.received_at since_ns) then e.id ∷ rest else rest

unfoldable pub joined : List Bytes → Bytes
joined [] = []
joined (c ∷ cs) = c ++ joined cs

module _ (codec : Codec) (lib : BloomLib) where
  open lib use {Filter}

  unfoldable pub latest_received_at : ℕ → Orchestrator Filter → ℤ
  unfolding latest_of
  latest_received_at shard o = elim (read_segments codec o.store.1 (segment_paths o.store.0)) [
    | err _ ↦ pos 0
    | ok entries ↦ latest_of o.total_shards (pos shard) (pos 0) entries
  ]

  -- The known IDs; none where the segments cannot be read.
  unfoldable pub local_ids : ℕ → ℤ → Orchestrator Filter → List Text
  unfolding ids_since
  local_ids shard since_ns o = elim (read_segments codec o.store.1 (segment_paths o.store.0)) [
    | err _ ↦ []
    | ok entries ↦ ids_since o.total_shards (pos shard) since_ns entries
  ]

  -- The names of the closed segments that hold entries of the shard.
  unfoldable pub covered_names : ℕ → Orchestrator Filter → List Text
  covered_names shard o = bases (
      keep (holds_shard codec lib o.total_shards (pos shard) o.store.1)
        (list_closed_segments o.store.0))

  -- The transferred file takes the place of any file of that name.
  unfoldable pub place_file : Text → Bytes → Orchestrator Filter → Orchestrator Filter
  place_file dest content o = record o {
    store = (
      o.store.0,
      rename_file (dest ++ text ".tmp") dest
          (record o.store.1 { segments = put (dest ++ text ".tmp") content o.store.1.segments }),
    );
  }

  -- The entries of a loaded segment, in the index; and how many they are.
  unfoldable pub load_placed : Text → Orchestrator Filter → ℕ × Orchestrator Filter
  load_placed dest o = elim (load_segment dest o.store) [
    | err _ ↦ (0, o)
    | ok m ↦ elim (read_segments codec o.store.1 (dest ∷ [])) [
      | err _ ↦ (0, record o { store = (m, o.store.1) })
      | ok entries ↦
          (length entries, record o { store = (m, o.store.1); idx = add_all entries dest o.idx })
    ]
  ]

  unfoldable pub receive_segment :
      Text → Option (List Bytes × Option Code) → Orchestrator Filter → ℕ × Orchestrator Filter
  unfolding place_file load_placed joined
  receive_segment name none o = (0, o)
  receive_segment name (some (chunks, some _)) o = (
    0,
    record o {
      store = (o.store.0, remove_file (join_path o.store.0.dir name ++ text ".tmp") o.store.1);
    },
  )
  receive_segment name (some (chunks, none)) o =
      let dest = join_path o.store.0.dir name in
      load_placed dest (place_file dest (joined chunks) o)

  -- The loop over the names that the primary lists.
  unfoldable pub transfer_all :
      Primary → ℕ → List Text → Text → List Text → Orchestrator Filter → ℕ × Orchestrator Filter
  unfolding receive_segment
  transfer_all primary shard local active [] o = (0, o)
  transfer_all primary shard local active (name ∷ names) o =
      if contains local name || name == active
      then transfer_all primary shard local active names o
      else let (n, o') = receive_segment name (primary.transfer name (to_int32 shard)) o in
        let (rest, o'') = transfer_all primary shard local active names o' in (n + rest, o'')

  unfoldable pub transfer_missing_segments :
      Primary → ℕ → Orchestrator Filter → ℕ × Orchestrator Filter
  unfolding transfer_all covered_names
  transfer_missing_segments primary shard o = elim (primary.list_segments (to_int32 shard)) [
    | none ↦ (0, o)
    | some names ↦
        transfer_all primary shard (covered_names shard o) (active_segment_name o.store.0) names o
  ]

  -- The entries whose IDs are not known are appended; an append that fails is passed over.
  unfoldable pub append_unknown :
      List Text → List LogEntry → Orchestrator Filter → ℕ × Orchestrator Filter
  append_unknown known [] o = (0, o)
  append_unknown known (pb ∷ pbs) o =
      if contains known pb.id
      then append_unknown known pbs o
      else let (appended, o') = append_and_add codec lib (proto_to_entry pb) o in
        let (n, o'') = append_unknown known pbs o' in ((if appended then suc n else n), o'')

  -- The second phase: the entries since the latest local one.
  unfoldable pub fetch_tail : Primary → ℕ → Orchestrator Filter → ℕ × Orchestrator Filter
  unfolding latest_received_at local_ids append_unknown
  fetch_tail primary shard o =
      let since_ns = latest_received_at shard o in
      elim (primary.fetch (to_int32 shard) since_ns) [
        | none ↦ (0, o)
        | some entries ↦ append_unknown (local_ids shard since_ns o) entries o
      ]

  -- Both phases, for one shard.
  unfoldable pub catch_up_shard : Primary → ℕ → Orchestrator Filter → ℕ × Orchestrator Filter
  unfolding transfer_missing_segments fetch_tail
  catch_up_shard primary shard o =
      let (n, o1) = transfer_missing_segments primary shard o in
      let (k, o2) = fetch_tail primary shard o1 in (n + k, o2)

  -- The loop over the shards of the cluster state. `dial` gives the client for an address, if gRPC
  -- makes one.
  unfoldable pub catch_up_all :
      (Text → Option Primary)
      → ClusterState
      → Dict ℕ ShardRecord
      → Orchestrator Filter
      → ℕ × Orchestrator Filter
  unfolding catch_up_shard
  catch_up_all dial state [] o = (0, o)
  catch_up_all dial state ((shard, sr) ∷ shards) o =
      let skipped = catch_up_all dial state shards o in
      let addr = node_address state sr.primary_node in
      if not (sr.replica_node == o.node_id) || addr == [] then skipped else elim (dial addr) [
        | none ↦ skipped
        | some primary ↦
            let (n, o') = catch_up_shard primary shard o in
            let (rest, o'') = catch_up_all dial state shards o' in (n + rest, o'')
      ]

  unfoldable pub catch_up :
      (Text → Option Primary) → ClusterState → Orchestrator Filter → ℕ × Orchestrator Filter
  unfolding catch_up_all
  catch_up dial state o = catch_up_all dial state state.shards o
