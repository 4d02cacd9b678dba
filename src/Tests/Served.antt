-- ===== src/Tests/Served.antt =====
-- Runs of the ingest service and of the replicator at concrete inputs.
use distributed_log_query_en.Storage.Read.Frames.{framed, blank}
use distributed_log_query_en.Storage.Manager.Stored.{file, no_files}
use distributed_log_query_en.Storage.Manager.Stored.{file, read_segments-Stored}
use distributed_log_query_en.Rpc.{Code}
use distributed_log_query_en.Tests.Retained.{first_path, second_path, two_files}
use distributed_log_query_en.Storage.Manager.{active_segment_name}
use distributed_log_query_en.Storage.Disk.{join_path, base_from, base, has_suffix}
use distributed_log_query_en.Prelude.PathSet.{contains}
use mathlib.Core.List.{Perm}
use distributed_log_query_en.Ingest.Server.Transfer.{
  transfer_segment-reads, fetch_shard_entries-IsSorted, join_chunks, IsChunk,
}
use distributed_log_query_en.Prelude.Order.{IsSorted}
use distributed_log_query_en.Ingest.Server.Writes.{replicate_entry_lost_namespace}
use distributed_log_query_en.Tests.Stored.{IsFrame-a, frame_a, manager_0}
use distributed_log_query_en.Prelude.Result.{ok}
use distributed_log_query_en.Storage.Read.{read_entries, read_segments}
use distributed_log_query_en.Tests.Ingested.{IsServing-0, node_1, node_0}
use distributed_log_query_en.Tests.Toy.{toy_bloom, toy_codec, sample}
use distributed_log_query_en.Prelude.Int.{less, int_eqb, pos}
use distributed_log_query_en.Types.{to_int32, LogEntry, Bytes}
use distributed_log_query_en.Prelude.Text.{text, text_eqb, Text}
use distributed_log_query_en.Replication.Laws.{
  run_events-fifo, kept, run_events, taken, offered, sends,
}
use distributed_log_query_en.Replication.{channel_capacity, send, ReplicaJob}
use distributed_log_query_en.Ingest.Router.{fnv32a, shard_id}
use distributed_log_query_en.Ingest.Server.{
  has_dots, has_slash, is_segment_name, is_internal, since, received_less, ingest, batch_response,
  fetch_shard_entries, transfer_segment, replicate_entry, ingest_all, ingest_batch, in_shard,
}
use distributed_log_query_en.Prelude.Dict.{get}
use distributed_log_query_en.Ingest.Orchestrator.{
  get_or_create_client, forward, route, handle_ingest, Peers, Orchestrator,
}
use distributed_log_query_en.Prelude.{
  last?, suc, ◌++◌, ◌&&◌, ◌≤◌, some, arith, All, none, refl, length, ◌≡◌, true, keep, List, [], ◌∷◌,
}

-- A node without shards, with one closed segment.
abbrev node_2 : Orchestrator (List Text)
node_2 = record node_0 {
  total_shards = 0;
  store = (record manager_0 { paths = first_path ∷ second_path ∷ [] }, two_files);
}

closed_read : read_segments toy_codec two_files (first_path ∷ []) ≡ ok (sample (text "a") ∷ [])
unfolding get text_eqb
closed_read =
    read_segments-Stored toy_codec two_files (file refl (framed IsFrame-a refl blank) no_files refl)

mine_a : keep (in_shard 0 (pos 0)) (sample (text "a") ∷ []) ≡ sample (text "a") ∷ []
unfolding in_shard keep
mine_a = refl

transfer_segment-reads_example :
    (chunks : List Bytes) × (transfer_segment toy_codec toy_bloom
        (λ n. none)
        (text "0.seg")
        (pos 0)
        node_2
      ≡ (chunks, none))
    × All IsChunk chunks
    × (read_entries toy_codec (suc (length (join_chunks chunks))) (join_chunks chunks)
        ≡ ok (keep (in_shard 0 (pos 0)) (sample (text "a") ∷ [])))
transfer_segment-reads_example =
    transfer_segment-reads toy_codec toy_bloom (λ n. none) (text "0.seg") (pos 0) node_2
      (sample (text "a") ∷ []) (λ i. refl)
      (unfold is_segment_name has_slash has_dots has_suffix text_eqb in refl)
      (unfold active_segment_name base base_from last? text_eqb in refl)
      (unfold join_path in closed_read) (rw mine_a (λ h. cc h))
      (rw mine_a ((frame_a, IsFrame-a), tt))

fetch_shard_entries-IsSorted_example :
    (es : List LogEntry) × (fetch_shard_entries toy_codec toy_bloom (pos 2) (pos 5) node_0 ≡ ok es)
    × IsSorted received_less es
    × Perm es (keep (λ e. in_shard 4 (pos 2) e && since (pos 5) e) (sample (text "a") ∷ []))
fetch_shard_entries-IsSorted_example =
    fetch_shard_entries-IsSorted toy_codec toy_bloom (pos 2) (pos 5) node_0 (sample (text "a") ∷ [])
      IsServing-0

-- The entry is among those.
asked :
    keep (λ e. in_shard 4 (pos 2) e && since (pos 5) e) (sample (text "a") ∷ [])
    ≡ sample (text "a") ∷ []
unfolding keep in_shard shard_id fnv32a since int_eqb less
asked = refl

-- Another node takes the first entry of the batch; the second has no service.
abbrev taking_peers : Peers
taking_peers = record { dial = λ a. true; ingest = λ a r. ok (record { id = text "b"; ok = true }) }

abbrev batch : List LogEntry
batch = sample (text "b") ∷ record (sample (text "c")) { service = [] } ∷ []

batch_run :
    ingest_batch toy_codec toy_bloom taking_peers
      (λ n. record { now = pos 9; random_hex = [] })
      (some batch)
      node_1
    ≡ (
      ok (record { accepted = pos 1; rejected = pos 1 }),
      record node_1 { clients = text "a2" ∷ [] },
    )
unfolding ingest_batch ingest_all batch_response ingest handle_ingest route forward
    get_or_create_client contains text_eqb is_internal to_int32
batch_run = refl

replicate_entry_lost_namespace_example :
    replicate_entry toy_codec toy_bloom
      (send
        (record { entry = sample (text "a"); shard_id = shard_id (text "prod") (text "api") 4 }))
      node_1
    ≡ (some Code.failed_precondition, node_1)
unfolding shard_id fnv32a
replicate_entry_lost_namespace_example =
    replicate_entry_lost_namespace toy_codec toy_bloom (sample (text "a")) node_1 (omega arith)
      (omega arith) (λ h. omega (arith, h))

abbrev job_a : ReplicaJob
job_a = record { entry = sample (text "a"); shard_id = 1 }

run_events-fifo_example :
    let vs = offered job_a ∷ taken ∷ offered job_a ∷ [] in
    (length (run_events vs ([], [])).0 ≤ channel_capacity)
    × ((run_events vs ([], [])).1 ++ sends (run_events vs ([], [])).0 ≡ sends (kept vs ([], [])))
unfolding sends
run_events-fifo_example =
    run_events-fifo (offered job_a ∷ taken ∷ offered job_a ∷ []) ([], []) (omega arith)
