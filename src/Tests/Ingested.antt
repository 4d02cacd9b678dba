-- ===== src/Tests/Ingested.antt =====
-- Runs of the write path and of catch-up at concrete inputs.
use distributed_log_query_en.Ingest.Server.{in_shard}
use distributed_log_query_en.Prelude.Dict.{get}
use distributed_log_query_en.Storage.Record.{read_record}
use distributed_log_query_en.Rpc.{Code}
use distributed_log_query_en.Types.{Bytes}
use distributed_log_query_en.Storage.Read.Frames.{blank, framed, IsFrame}
use mathlib.Core.Path.{subst}
use distributed_log_query_en.Entries.{ids}
use distributed_log_query_en.Index.Coverage.{Covers-add_self}
use distributed_log_query_en.Storage.Disk.{join_path}
use distributed_log_query_en.Storage.Manager.{decimal, segment_paths, segment_name}
use distributed_log_query_en.Tests.Stored.{IsFrame-b, frame_b, disk_0, IsOpen-0, manager_0, path_0}
use distributed_log_query_en.Prelude.Result.{ok, err}
use distributed_log_query_en.Prelude.Text.{text_key, text, text_eqb, Text}
use distributed_log_query_en.Storage.Read.{
  at_record_error, skip_missing, read_entries, read_segments, read_segment,
}
use distributed_log_query_en.Ingest.Router.{fnv32a, shard_id}
use distributed_log_query_en.Tests.Toy.{toy_bloom, sample, toy_codec}
use distributed_log_query_en.Ingest.Convert.{proto_to_entry}
use distributed_log_query_en.Prelude.Int.{int_eqb, less, pos}
use distributed_log_query_en.Ingest.Orchestrator.Laws.{handle_ingest-elsewhere, IsServing}
use distributed_log_query_en.Ingest.CatchUp.Laws.{
  fetch_tail-IsServing, receive_segment-replaces, news,
}
use distributed_log_query_en.Ingest.CatchUp.{
  ids_since, latest_of, latest_received_at, local_ids, fetch_tail, receive_segment, joined, Primary,
}
use distributed_log_query_en.Prelude.PathSet.{contains}
use distributed_log_query_en.Ingest.Orchestrator.{
  handle_ingest, received, Arrival, Peers, Orchestrator,
}
use distributed_log_query_en.Index.{new_index, add, Index}
use distributed_log_query_en.Prelude.{
  keep, ◌≢◌, sym, All, true, ==_refl, refl, length, arith, ◌≡◌, none, some, false, List, ℕ, [], ◌∷◌,
}

abbrev pub idx_0 : Index
idx_0 = add (sample (text "a")) path_0 new_index

-- The node n1, which is the primary of each of four shards.
abbrev pub node_0 : Orchestrator (List Text)
node_0 = record {
  node_id = text "n1";
  total_shards = 4;
  state_reader = record { shard_owners = λ s. (text "n1", text "n2"); node_address = λ n. [] };
  store = (manager_0, disk_0);
  idx = idx_0;
  replicator = none;
  clients = [];
}

pub IsServing-0 : IsServing toy_codec node_0 (sample (text "a") ∷ [])
unfolding contains
IsServing-0 = record {
  stored = IsOpen-0;
  found = (
    record {
      path = path_0;
      listed = ground (arith, ==_refl path_0);
      covered = Covers-add_self (sample (text "a")) path_0 new_index;
    },
    tt,
  );
}

abbrev pub no_peers : Peers
no_peers = record { dial = λ a. false; ingest = λ a r. err Code.unavailable }

abbrev pub at_9 : Arrival
at_9 = record { now = pos 9; random_hex = [] }

pub received_b : received at_9 (sample (text "b")) ≡ sample (text "b")
unfolding received proto_to_entry text_eqb
received_b = refl

-- The same node where n2 is the primary.
abbrev pub node_1 : Orchestrator (List Text)
node_1 = record node_0 {
  state_reader = record {
    shard_owners = λ s. (text "n2", text "n1");
    node_address = λ n. text "a2";
  };
}

apart : text "n2" ≢ text "n1"
unfolding text_eqb
apart h = cc ((text_key.eqb_iff (text "n2") (text "n1")).1 h)

handle_ingest-elsewhere_example :
    let run =
      handle_ingest toy_codec toy_bloom no_peers at_9
        (record { entry = some (sample (text "b")) })
        node_1 in
    (run.1.store ≡ node_1.store) × (run.1.idx ≡ node_1.idx) × (run.1.replicator ≡ node_1.replicator)
handle_ingest-elsewhere_example =
    handle_ingest-elsewhere toy_codec toy_bloom no_peers at_9
      (record { entry = some (sample (text "b")) }) node_1 (λ h. cc h) (λ pb e h. apart h)

-- A primary that answers with both entries, of which the node has the first.
abbrev primary_ab : Primary
primary_ab = record {
  list_segments = λ s. some [];
  transfer = λ n s. none;
  fetch = λ s t. some (sample (text "a") ∷ sample (text "b") ∷ []);
}

-- The shard of the sample.
abbrev shard_ab : ℕ
shard_ab = shard_id (text "prod") (text "api") 4

news-b :
    news toy_codec toy_bloom shard_ab node_0 (sample (text "a") ∷ sample (text "b") ∷ [])
    ≡ sample (text "b") ∷ []
unfolding local_ids latest_received_at latest_of ids_since segment_paths read_segments read_segment
    read_entries read_record skip_missing at_record_error get text_eqb contains keep less in_shard
    shard_id fnv32a int_eqb join_path segment_name decimal
news-b = refl

fetch_tail-IsServing_example :
    let new =
      news toy_codec toy_bloom shard_ab node_0 (sample (text "a") ∷ sample (text "b") ∷ []) in
    (o' : Orchestrator (List Text)) × (fetch_tail toy_codec toy_bloom primary_ab shard_ab node_0
      ≡ (length new, o'))
    × IsServing toy_codec o' (sample (text "a") ∷ new)
    × All
        (λ e. contains (ids (sample (text "a") ∷ new)) e.id ≡ true)
        (sample (text "a") ∷ sample (text "b") ∷ [])
fetch_tail-IsServing_example =
    fetch_tail-IsServing toy_codec toy_bloom primary_ab shard_ab node_0 (sample (text "a") ∷ [])
      (sample (text "a") ∷ sample (text "b") ∷ []) IsServing-0 refl
      (subst (All (λ e. (frame : Bytes) × IsFrame toy_codec e frame)) (sym news-b)
        ((frame_b, IsFrame-b), tt))
      (omega arith)

receive_segment-replaces_example :
    read_segment toy_codec
      (receive_segment toy_codec toy_bloom
        (segment_name 0)
        (some (frame_b ∷ [], none))
        node_0).1.store.1
      (join_path (text "d") (segment_name 0))
    ≡ ok (sample (text "b") ∷ [])
unfolding joined
receive_segment-replaces_example =
    receive_segment-replaces toy_codec toy_bloom (segment_name 0) (frame_b ∷ [])
      (sample (text "b") ∷ []) node_0 (framed IsFrame-b refl blank)
