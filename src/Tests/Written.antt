-- ===== src/Tests/Written.antt =====
-- A write and a query of it, at concrete inputs.
use distributed_log_query_en.Node.Started.{first_store, start_node-empty}
use distributed_log_query_en.Node.Reached.{started, wrote, execute-finds_taken, Reached}
use distributed_log_query_en.Storage.Manager.Open.{new_manager}
use distributed_log_query_en.Query.Match.Prune.{uses_indexed_fields}
use distributed_log_query_en.Storage.Record.{put_uint32, write_record}
use distributed_log_query_en.Node.Answers.{handle_ingest-found}
use distributed_log_query_en.Entries.{ids}
use distributed_log_query_en.Storage.Manager.Write.{
  appended, append_active, append_payload, append_locked, append_with_path,
}
use distributed_log_query_en.Storage.Read.Frames.{blank, framed, IsFrame}
use distributed_log_query_en.Prelude.Int.{int_eqb, less, pos}
use distributed_log_query_en.Ingest.Convert.{proto_to_entry}
use distributed_log_query_en.Node.Appended.{handle_ingest-IsSearchable}
use mathlib.Core.Path.{subst}
use distributed_log_query_en.Index.Coverage.{Covers, Covers-add_self}
use distributed_log_query_en.Index.{new_index, add}
use distributed_log_query_en.Prelude.Result.{ok-injective, ok}
use distributed_log_query_en.Tests.Queried.{parse_disk, term_disk, request, not_canceled}
use distributed_log_query_en.Query.Executor.Reads.{Reads}
use distributed_log_query_en.Node.Searchable.{BloomHolds, read_held, IsSearchable}
use distributed_log_query_en.Tests.Ingested.{received_b, at_9, no_peers, idx_0, node_0}
use distributed_log_query_en.Tests.Stored.{
  IsFrame-b, IsFrame-a, frame_a, frame_b, IsOpen-0, disk_0, path_0, manager_0,
}
use distributed_log_query_en.Types.{LogEntry}
use distributed_log_query_en.Query.Match.{without_empty, has_token, matches_node, matches}
use distributed_log_query_en.Prelude.PathSet.{contains}
use distributed_log_query_en.Tests.Toy.{
  no_fields, is_sample, marshal_sample, toy_bloom, sample, toy_codec,
}
use distributed_log_query_en.Prelude.Text.{
  text_eqb, is_alphanumeric, split_from, split_non_alphanumeric, lower_byte, to_lower, text_key,
  text, Text,
}
use distributed_log_query_en.Query.Executor.{effective_limit, page, execute, passes}
use distributed_log_query_en.Storage.Read.{read_segment}
use distributed_log_query_en.Storage.Disk.{join_path, append_file}
use distributed_log_query_en.Prelude.Dict.{put, get}
use distributed_log_query_en.Ingest.Orchestrator.Laws.{IsServing}
use distributed_log_query_en.Ingest.Orchestrator.{
  replicate, received, append_and_add, acknowledge, write_local, route, handle_ingest,
  IngestResponse, Orchestrator,
}
use distributed_log_query_en.Storage.Manager.{segment_name, bloom_for, Manager}
use distributed_log_query_en.Prelude.{
  keep, false, last?, ◌∙◌, refl, none, sym, ◌++◌, All, ==_refl, inr, inl, arith, ◌==◌, Bool-cases,
  ◌≡◌, true, some, List, [], ◌∷◌,
}

-- A node without a cluster, whose segment has room.
abbrev manager_3 : Manager (List Text)
manager_3 = record manager_0 { max_segment_bytes = 100 }

abbrev node_3 : Orchestrator (List Text)
node_3 = record node_0 { total_shards = 0; store = (manager_3, disk_0) }

IsServing-3 : IsServing toy_codec node_3 (sample (text "a") ∷ [])
unfolding contains
IsServing-3 = record {
  stored = record {
    ready = record { stored = IsOpen-0.ready.stored; unused = IsOpen-0.ready.unused };
    seg = IsOpen-0.seg;
    active = IsOpen-0.active;
    last = IsOpen-0.last;
    distinct = IsOpen-0.distinct;
    sized = IsOpen-0.sized;
  };
  found = (
    record {
      path = path_0;
      listed = ground (arith, ==_refl path_0);
      covered = Covers-add_self (sample (text "a")) path_0 new_index;
    },
    tt,
  );
}

read_0 : read_segment toy_codec disk_0 path_0 ≡ ok (sample (text "a") ∷ [])
unfolding get
read_0 =
    read_held toy_codec toy_bloom disk_0 path_0 frame_a (sample (text "a") ∷ [])
      (ground (arith, ==_refl path_0)) (framed IsFrame-a refl blank)

IsSearchable-3 : IsSearchable toy_codec toy_bloom idx_0 (manager_3, disk_0)
unfolding bloom_for get contains
IsSearchable-3 = record {
  known = λ p es listed reads.
      let here : path_0 ≡ p = (text_key.eqb_iff path_0 p).0 (ground arith) in
      subst
        (λ q.
          (es : List LogEntry)
          → read_segment toy_codec disk_0 q ≡ ok es
          → All (λ e. Covers idx_0 q e × BloomHolds toy_bloom none e) es)
        here
        (λ es read.
          subst (All (λ e. Covers idx_0 path_0 e × BloomHolds toy_bloom none e))
            (ok-injective _ es (sym read_0 ∙ read))
            ((Covers-add_self (sample (text "a")) path_0 new_index, tt), tt))
        es reads;
  plain = λ seg e. refl;
  unused = λ n above small. refl;
}

handle_ingest-IsSearchable_example :
    (o' : Orchestrator (List Text)) × (handle_ingest toy_codec toy_bloom no_peers at_9
        (record { entry = some (sample (text "b")) })
        node_3
      ≡ (ok (record { id = (received at_9 (sample (text "b"))).id; ok = true }), o'))
    × IsServing toy_codec o' (sample (text "a") ∷ received at_9 (sample (text "b")) ∷ [])
    × IsSearchable toy_codec toy_bloom o'.idx o'.store
handle_ingest-IsSearchable_example =
    handle_ingest-IsSearchable toy_codec toy_bloom no_peers at_9 (sample (text "b")) node_3
      (sample (text "a") ∷ []) frame_b IsServing-3 IsSearchable-3 (λ h. cc h) (λ h. cc h) (inl refl)
      (subst (λ e. IsFrame toy_codec e frame_b) (sym received_b) IsFrame-b) (omega arith)

-- The node after that write.
abbrev node_4 : Orchestrator (List Text)
node_4 = record node_3 {
  store = (
    record manager_3 { active = some (record { path = path_0; size = 10 }) },
    append_file path_0 frame_b disk_0,
  );
  idx = add (sample (text "b")) path_0 idx_0;
}

abbrev resp_b : IngestResponse
resp_b = record { id = text "b"; ok = true }

written_3 :
    handle_ingest toy_codec toy_bloom no_peers at_9
      (record { entry = some (sample (text "b")) })
      node_3
    ≡ (ok resp_b, node_4)
unfolding handle_ingest route write_local acknowledge append_and_add received proto_to_entry
    append_with_path append_locked append_payload append_active appended
    distributed_log_query_en.Storage.Segment.append write_record put_uint32 marshal_sample is_sample
    no_fields int_eqb text_eqb replicate last?
written_3 = refl

read_4 :
    read_segment toy_codec node_4.store.1 path_0 ≡ ok (sample (text "a") ∷ sample (text "b") ∷ [])
unfolding append_file get put
read_4 =
    read_held toy_codec toy_bloom node_4.store.1 path_0 (frame_a ++ frame_b)
      (sample (text "a") ∷ sample (text "b") ∷ []) (ground (arith, ==_refl path_0))
      (framed IsFrame-a refl (framed IsFrame-b refl blank))

Reads-4 : (p : Text) → Reads toy_codec sample node_4.store.1 p
unfolding read_segment append_file get put
Reads-4 p = elim (Bool-cases (path_0 == p)) [
  | inl here ↦ inr (
    sample (text "a") ∷ sample (text "b") ∷ [],
    rw (← (text_key.eqb_iff path_0 p).0 here) read_4,
    (refl, (refl, tt)),
  )
  | inr other ↦ inl (ground (arith, ==_refl path_0))
]

passes_b : passes request term_disk (received at_9 (sample (text "b"))) ≡ true
unfolding passes matches matches_node has_token distributed_log_query_en.Query.Match.tokenize
    without_empty contains to_lower lower_byte split_non_alphanumeric split_from is_alphanumeric
    text_eqb received proto_to_entry less
passes_b = refl

by_its_id : received at_9 (sample (text "b")) ≡ sample (received at_9 (sample (text "b"))).id
unfolding received proto_to_entry text_eqb
by_its_id = refl

handle_ingest-found_example :
    (found : List LogEntry) × (execute toy_codec toy_bloom node_4.idx node_4.store not_canceled
        request
      ≡ ok (page (pos 0) (effective_limit (pos 0)) found))
    × (contains (ids found) (text "b") ≡ true)
handle_ingest-found_example =
    handle_ingest-found toy_codec toy_bloom sample no_peers at_9 (sample (text "b")) node_3 node_4
      (sample (text "a") ∷ []) frame_b resp_b not_canceled request term_disk IsServing-3
      IsSearchable-3 (λ h. cc h) (λ h. cc h) (inl refl)
      (subst (λ e. IsFrame toy_codec e frame_b) (sym received_b) IsFrame-b) (omega arith) written_3
      (refl, (by_its_id, tt)) Reads-4 (unfold less in refl) (unfold less in refl) refl refl
      parse_disk (unfold uses_indexed_fields in refl) passes_b

-- A node that starts in an empty directory.
abbrev fresh : Orchestrator (List Text)
fresh = record node_3 {
  store = first_store toy_codec toy_bloom (text "d") 100 false;
  idx = new_index;
}

abbrev path_1 : Text
path_1 = join_path (text "d") (segment_name 1)

-- It after one write.
abbrev node_5 : Orchestrator (List Text)
node_5 = record fresh {
  store = (
    record {
      dir = text "d";
      max_segment_bytes = 100;
      active = some (record { path = path_1; size = 5 });
      next_seq = 2;
      paths = path_1 ∷ [];
      bloom_enabled = false;
      blooms = [];
    },
    record {
      segments = (path_1, frame_b) ∷ [];
      sidecars = [];
      active_marker = some (segment_name 1);
    },
  );
  idx = add (sample (text "b")) path_1 new_index;
}

written_5 :
    (handle_ingest toy_codec toy_bloom no_peers at_9
      (record { entry = some (sample (text "b")) })
      fresh).1
    ≡ node_5
unfolding handle_ingest route write_local acknowledge append_and_add received proto_to_entry
    append_with_path append_locked append_payload append_active appended
    distributed_log_query_en.Storage.Segment.append write_record put_uint32 marshal_sample is_sample
    no_fields int_eqb text_eqb replicate last? new_manager append_file put get
    distributed_log_query_en.Storage.Manager.open_new_segment
    distributed_log_query_en.Storage.Manager.next_seq_from_matches
    distributed_log_query_en.Storage.Segment.open_segment
    distributed_log_query_en.Storage.Disk.create_file
    distributed_log_query_en.Storage.Manager.segment_name
    distributed_log_query_en.Storage.Disk.join_path distributed_log_query_en.Prelude.Order.sort_by
    keep
written_5 = refl

Reached-5 : Reached toy_codec toy_bloom no_peers node_5 (received at_9 (sample (text "b")) ∷ [])
unfolding new_manager distributed_log_query_en.Storage.Manager.open_new_segment
    distributed_log_query_en.Storage.Manager.next_seq_from_matches last?
    distributed_log_query_en.Prelude.Order.sort_by keep
Reached-5 =
    subst (λ o. Reached toy_codec toy_bloom no_peers o (received at_9 (sample (text "b")) ∷ []))
      written_5
      (wrote at_9 (sample (text "b")) frame_b
        (started (text "d") 100 false (start_node-empty toy_codec toy_bloom (text "d") 100 false))
        (λ h. cc h) (λ h. cc h) (inl refl)
        (subst (λ e. IsFrame toy_codec e frame_b) (sym received_b) IsFrame-b) (omega arith))

Reads-5 : (p : Text) → Reads toy_codec sample node_5.store.1 p
unfolding read_segment get
Reads-5 p = elim (Bool-cases (path_1 == p)) [
  | inl here ↦ inr (
    sample (text "b") ∷ [],
    rw (← (text_key.eqb_iff path_1 p).0 here) (
        read_held toy_codec toy_bloom node_5.store.1 path_1 frame_b (sample (text "b") ∷ [])
          (ground (arith, ==_refl path_1)) (framed IsFrame-b refl blank)),
    (refl, tt),
  )
  | inr other ↦ inl (ground (arith, ==_refl path_1))
]

execute-finds_taken_example :
    (found : List LogEntry) × (execute toy_codec toy_bloom node_5.idx node_5.store not_canceled
        request
      ≡ ok (page (pos 0) (effective_limit (pos 0)) found))
    × All
        (λ e. contains (ids found) e.id ≡ true)
        (keep (passes request term_disk) (received at_9 (sample (text "b")) ∷ []))
execute-finds_taken_example =
    execute-finds_taken toy_codec toy_bloom sample no_peers node_5
      (received at_9 (sample (text "b")) ∷ []) not_canceled request term_disk Reached-5
      (by_its_id, tt) Reads-5 (unfold less in refl) (unfold less in refl) refl refl parse_disk
      (unfold uses_indexed_fields in refl)
