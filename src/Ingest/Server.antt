-- ===== src/Ingest/Server.antt =====
-- internal/ingest/server.go: the gRPC service that takes, copies and hands out log entries. A server
-- and its orchestrator have the same node ID, number of shards, reader, manager and index, so the
-- state is the orchestrator's. The metrics, the request IDs and the log are left out.
use Prim.Native.Nat.{min}
use distributed_log_query_en.Prelude.Order.{sort_by}
use distributed_log_query_en.Storage.Record.{write_record}
use distributed_log_query_en.Storage.Manager.{
  active_segment_name, segment_paths, list_closed_segments,
}
use distributed_log_query_en.Ingest.Router.{shard_id}
use distributed_log_query_en.Storage.Read.{read_segments}
use distributed_log_query_en.Ingest.Convert.{entry_to_proto, proto_to_entry}
use distributed_log_query_en.Replication.{ReplicateEntryRequest}
use distributed_log_query_en.Prelude.Result.{◌>>=◌, ok, err, Result}
use distributed_log_query_en.Ingest.Orchestrator.{
  handle_ingest, append_and_add, IngestResponse, IngestRequest, Arrival, Orchestrator, Peers,
}
use distributed_log_query_en.Storage.Disk.{join_path, has_suffix, Disk, base}
use distributed_log_query_en.Storage.Bloom.{BloomLib}
use distributed_log_query_en.Types.{to_int32, Bytes, Codec, LogEntry}
use distributed_log_query_en.Prelude.Text.{text_key, text, Text}
use distributed_log_query_en.Prelude.{
  zero, take, drop, ◌++◌, length, ◌==◌, ltb, some, suc, [], keep, if◌then◌else◌, none, ◌&&◌, ◌||◌,
  Option, ◌*◌, not, ◌∷◌, false, nat_eqb, true, List, Bool, ℕ,
}
use distributed_log_query_en.Prelude.Int.{int_key, pos, less, ℤ}
use distributed_log_query_en.Rpc.{Code}
pub mod Writes
pub mod Transfer

unfoldable pub is_internal : Code → Bool
is_internal Code.internal = true
is_internal _ = false

pub record IngestBatchResponse : Type 0 where
  pub accepted : ℤ
  pub rejected : ℤ

-- Whether the entry belongs to the shard; with no shards every entry does.
unfoldable pub in_shard : ℕ → ℤ → LogEntry → Bool
in_shard total_shards shard e =
    nat_eqb total_shards 0 || pos (shard_id e.namespace e.service total_shards) == shard

unfoldable pub any_pass {ℓ} : {A : Type ℓ} → (A → Bool) → List A → Bool
any_pass p [] = false
any_pass p (x ∷ xs) = p x || any_pass p xs

unfoldable pub bases : List Text → List Text
bases [] = []
bases (p ∷ ps) = base p ∷ bases ps

-- strings.ContainsAny(name, "/\\")
unfoldable pub has_slash : Text → Bool
has_slash [] = false
has_slash (c ∷ s) = nat_eqb c b'/' || (nat_eqb c b'\\' || has_slash s)

-- strings.Contains(name, "..")
unfoldable pub has_dots : Text → Bool
has_dots [] = false
has_dots (c ∷ []) = false
has_dots (c ∷ d ∷ s) = (nat_eqb c b'.' && nat_eqb d b'.') || has_dots (d ∷ s)

unfoldable pub is_segment_name : Text → Bool
unfolding has_slash has_dots
is_segment_name name =
    not (has_slash name || (has_dots name || not (has_suffix name (text ".seg"))))

abbrev pub transfer_chunk_size : ℕ
transfer_chunk_size = 64 * 1024

-- The loop that streams the payload, with the error of the n-th send: the chunks that were sent, and
-- the error that ended the loop. Each turn takes a byte at least, so the length is fuel enough.
unfoldable pub send_chunks : (ℕ → Option Code) → ℕ → ℕ → Bytes → List Bytes × Option Code
send_chunks send_error fuel n [] = ([], none)
send_chunks send_error zero n (b ∷ payload) = ([], none)
send_chunks send_error (suc fuel) n (b ∷ payload) =
    let size = min transfer_chunk_size (length (b ∷ payload)) in
    elim (send_error n) [
      | some code ↦ ([], some code)
      | none ↦
          let (chunks, end) = send_chunks send_error fuel (suc n) (drop size (b ∷ payload)) in
          (take size (b ∷ payload) ∷ chunks, end)
    ]

unfoldable pub received_less : LogEntry → LogEntry → Bool
received_less a b = less a.received_at b.received_at

-- Another node than this one is known as the replica.
unfoldable pub is_elsewhere : Text → Text → Bool
is_elsewhere replica node_id = not (replica == []) && not (replica == node_id)

unfoldable pub stream_frames : (ℕ → Option Code) → Result Code Bytes → List Bytes × Option Code
unfolding send_chunks
stream_frames send_error (err code) = ([], some code)
stream_frames send_error (ok []) = ([], some Code.not_found)
stream_frames send_error (ok (b ∷ payload)) =
    send_chunks send_error (length (b ∷ payload)) 0 (b ∷ payload)

unfoldable pub since : ℤ → LogEntry → Bool
since since_unix_ns e = not (less e.received_at since_unix_ns)

unfoldable pub batch_response : Result Code (ℕ × ℕ) → Result Code IngestBatchResponse
batch_response (err code) = err code
batch_response (ok (accepted, rejected)) =
    ok (record { accepted = to_int32 accepted; rejected = to_int32 rejected })

module _ (codec : Codec) (lib : BloomLib) where
  open codec use {marshal}
  open lib use {Filter}

  -- `Ingest`, but for what it logs and counts.
  unfoldable pub ingest :
      Peers
      → Arrival
      → IngestRequest
      → Orchestrator Filter
      → Result Code IngestResponse × Orchestrator Filter
  ingest peers a req o = handle_ingest codec lib peers a req o

  -- The loop of `IngestBatch`: how many entries were accepted and rejected so far. The n-th entry
  -- arrives as `arrivals n` says.
  unfoldable pub ingest_all :
      Peers
      → (ℕ → Arrival)
      → ℕ
      → List LogEntry
      → ℕ
      → ℕ
      → Orchestrator Filter
      → Result Code (ℕ × ℕ) × Orchestrator Filter
  unfolding ingest is_internal
  ingest_all peers arrivals n [] accepted rejected o = (ok (accepted, rejected), o)
  ingest_all peers arrivals n (pb ∷ pbs) accepted rejected o =
      let (answer, o') = ingest peers (arrivals n) (record { entry = some pb }) o in
      elim answer [
        | ok _ ↦ ingest_all peers arrivals (suc n) pbs (suc accepted) rejected o'
        | err code ↦ elim (is_internal code) [
          | true ↦ (err Code.internal, o')
          | false ↦ ingest_all peers arrivals (suc n) pbs accepted (suc rejected) o'
        ]
      ]

  unfoldable pub ingest_batch :
      Peers
      → (ℕ → Arrival)
      → Option (List LogEntry)
      → Orchestrator Filter
      → Result Code IngestBatchResponse × Orchestrator Filter
  unfolding ingest_all batch_response
  ingest_batch peers arrivals none o = (err Code.invalid_argument, o)
  ingest_batch peers arrivals (some entries) o =
      let (counts, o') = ingest_all peers arrivals 0 entries 0 0 o in (batch_response counts, o')

  -- Whether the shard's entries are refused: the request claims another shard than the entry's, or
  -- another node is known as the replica.
  unfoldable pub refuses_replica : ReplicateEntryRequest → LogEntry → Orchestrator Filter → Bool
  unfolding is_elsewhere
  refuses_replica req pb o =
      ltb 0 o.total_shards
      && (not (pos (shard_id pb.namespace pb.service o.total_shards) == req.shard_id)
          || is_elsewhere (o.state_reader.shard_owners req.shard_id).1 o.node_id)

  -- `ReplicateEntry`, with the error that it answers.
  unfoldable pub replicate_entry :
      ReplicateEntryRequest → Orchestrator Filter → Option Code × Orchestrator Filter
  unfolding refuses_replica proto_to_entry
  replicate_entry req o = elim req.entry [
    | none ↦ (some Code.invalid_argument, o)
    | some pb ↦
        if refuses_replica req pb o
        then (some Code.failed_precondition, o)
        else let (appended, o') = append_and_add codec lib (proto_to_entry pb) o in
          if appended then (none, o') else (some Code.internal, o')
  ]

  -- Whether the segment can be read and holds an entry of the shard.
  unfoldable pub holds_shard : ℕ → ℤ → Disk Filter → Text → Bool
  unfolding any_pass in_shard
  holds_shard total_shards shard d path = elim (read_segments codec d (path ∷ [])) [
    | err _ ↦ false
    | ok entries ↦ any_pass (in_shard total_shards shard) entries
  ]

  unfoldable pub list_segments : ℤ → Orchestrator Filter → List Text
  unfolding holds_shard bases
  list_segments shard o =
      bases (keep (holds_shard o.total_shards shard o.store.1) (list_closed_segments o.store.0))

  -- The frames of the entries, one behind the other.
  unfoldable pub frame_entries : List LogEntry → Result Code Bytes
  unfolding entry_to_proto
  frame_entries [] = ok []
  frame_entries (e ∷ es) = elim (marshal (entry_to_proto e)) [
    | none ↦ err Code.internal
    | some payload ↦ elim (write_record payload) [
      | err _ ↦ err Code.internal
      | ok frame ↦ frame_entries es >>= λ rest. ok (frame ++ rest)
    ]
  ]

  -- `TransferSegment`: the chunks that were sent, and the error that ended the call.
  unfoldable pub transfer_segment :
      (ℕ → Option Code) → Text → ℤ → Orchestrator Filter → List Bytes × Option Code
  unfolding is_segment_name frame_entries stream_frames
  transfer_segment send_error name shard o =
      if not (is_segment_name name)
      then ([], some Code.invalid_argument)
      else if name == active_segment_name o.store.0
      then ([], some Code.failed_precondition)
      else elim (read_segments codec o.store.1 (join_path o.store.0.dir name ∷ [])) [
        | err _ ↦ ([], some Code.not_found)
        | ok entries ↦
            stream_frames send_error (frame_entries (keep (in_shard o.total_shards shard) entries))
      ]

  unfoldable pub fetch_shard_entries : ℤ → ℤ → Orchestrator Filter → Result Code (List LogEntry)
  unfolding received_less since
  fetch_shard_entries shard since_unix_ns o =
      elim (read_segments codec o.store.1 (segment_paths o.store.0)) [
        | err _ ↦ err Code.internal
        | ok all ↦ ok (
            sort_by received_less
              (keep (λ e. in_shard o.total_shards shard e && since since_unix_ns e) all))
      ]
