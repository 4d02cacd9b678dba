-- ===== src/Ingest/Server/Transfer.antt =====
-- What internal/ingest/server.go hands out: segments of one shard, and the entries of a shard.
use distributed_log_query_en.Storage.Manager.Stored.{read_segments-Stored}
use distributed_log_query_en.Storage.Segment.{length-write_record}
use mathlib.Core.List.{Perm}
use distributed_log_query_en.Storage.Disk.{join_path}
use distributed_log_query_en.Storage.Read.{read_entries, read_segments}
use distributed_log_query_en.Prelude.Order.{
  sort_by-perm, sort_by-IsSorted, sort_by, IsWeakOrder, IsSorted,
}
use distributed_log_query_en.Prelude.Result.{ok}
use distributed_log_query_en.Ingest.Orchestrator.Laws.{IsServing}
use distributed_log_query_en.Storage.Read.Frames.{read_entries-Holds, framed, blank, Holds, IsFrame}
use distributed_log_query_en.Ingest.Orchestrator.{Orchestrator}
use distributed_log_query_en.Prelude.Int.{less_of_lt_le, less, less_asymm, ℤ}
use distributed_log_query_en.Storage.Manager.{active_segment_name, segment_paths}
use distributed_log_query_en.Prelude.Text.{text_key, Text}
use distributed_log_query_en.Ingest.Convert.{entry_to_proto}
use distributed_log_query_en.Rpc.{Code}
use distributed_log_query_en.Storage.Bloom.{BloomLib}
use distributed_log_query_en.Ingest.Server.{
  since, in_shard, stream_frames, received_less, is_segment_name, transfer_chunk_size,
  fetch_shard_entries, transfer_segment, frame_entries, send_chunks,
}
use distributed_log_query_en.Types.{LogEntry, Codec, Bytes}
use Prim.Native.Nat.{min}
use distributed_log_query_en.Prelude.{
  inr, inl, Bool-cases, ◌&&◌, keep, length-append, false, ◌≢◌, length-take, ◌==◌, ◌∙◌, refl, true,
  length-drop, zero, arith, All, ap, none, suc, ◌≡◌, ◌≤◌, drop, length, Option, take, ◌<◌, ◌++◌, ℕ,
  List, [], ◌∷◌,
}

abbrev pub join_chunks : List Bytes → Bytes
join_chunks [] = []
join_chunks (c ∷ cs) = c ++ join_chunks cs

-- A chunk that is sent: some bytes, and not too many.
abbrev pub IsChunk : Bytes → Type 0
IsChunk c = (0 < length c) × (length c ≤ transfer_chunk_size)

take-drop : (n : ℕ) (xs : Bytes) → take n xs ++ drop n xs ≡ xs
take-drop zero xs = refl
take-drop (suc n) [] = refl
take-drop (suc n) (x ∷ xs) = ap (◌∷◌ x) (take-drop n xs)

-- Where no send fails, the chunks are the payload cut into pieces, and the loop ends.
pub send_chunks_joins :
    (send_error : ℕ → Option Code) (fuel n : ℕ) (payload : Bytes)
    → ((i : ℕ) → send_error i ≡ none)
    → length payload ≤ fuel
    → (chunks : List Bytes) × (send_chunks send_error fuel n payload ≡ (chunks, none))
      × (join_chunks chunks ≡ payload)
      × All IsChunk chunks
unfolding send_chunks
send_chunks_joins send_error fuel n [] sends enough = ([], refl, refl, tt)
send_chunks_joins send_error zero n (b ∷ payload) sends enough = absurd (omega arith)
send_chunks_joins send_error (suc fuel) n (b ∷ payload) sends enough =
    let size = min transfer_chunk_size (length (b ∷ payload)) in
    let left = length-drop size (b ∷ payload) in
    let (chunks, e, joined, small) =
      send_chunks_joins send_error fuel (suc n) (drop size (b ∷ payload)) sends
        (omega (arith, left)) in
    (
      take size (b ∷ payload) ∷ chunks,
      rw (send_chunks, sends n, e) refl,
      ap (◌++◌ (take size (b ∷ payload))) joined ∙ take-drop size (b ∷ payload),
      (
        (
          omega (arith, length-take size (b ∷ payload)),
          omega (arith, length-take size (b ∷ payload)),
        ),
        small,
      ),
    )

received_less-IsWeakOrder : IsWeakOrder received_less
unfolding received_less
received_less-IsWeakOrder = record {
  asymm = λ a b h. less_asymm a.received_at b.received_at h;
  not_less_trans = λ x y z h k. elim (Bool-cases (less z.received_at x.received_at)) [
    | inl lt ↦ cc (less_of_lt_le z.received_at x.received_at y.received_at lt h, k)
    | inr ge ↦ ge
  ];
}

stream_frames_joins :
    (send_error : ℕ → Option Code) (payload : Bytes)
    → ((i : ℕ) → send_error i ≡ none)
    → 0 < length payload
    → (chunks : List Bytes) × (stream_frames send_error (ok payload) ≡ (chunks, none))
      × (join_chunks chunks ≡ payload)
      × All IsChunk chunks
unfolding stream_frames
stream_frames_joins send_error [] sends some_left = absurd (omega arith)
stream_frames_joins send_error (b ∷ payload) sends some_left =
    send_chunks_joins send_error (length (b ∷ payload)) 0 (b ∷ payload) sends (omega arith)

module _ (codec : Codec) (lib : BloomLib) where
  open lib use {Filter}

  -- Entries that marshal within the limit become the bytes of a segment file that holds them.
  frame_entries-Holds :
      (es : List LogEntry)
      → All (λ e. (frame : Bytes) × IsFrame codec e frame) es
      → (payload : Bytes) × (frame_entries codec lib es ≡ ok payload)
        × Holds codec payload es
        × (es ≢ [] → 0 < length payload)
  unfolding frame_entries entry_to_proto
  frame_entries-Holds [] h = ([], refl, blank, λ ne. absurd (ne refl))
  frame_entries-Holds (e ∷ es) ((frame, f), h) =
      let (rest, framed_rest, held, longer) = frame_entries-Holds es h in
      (
        frame ++ rest,
        rw (frame_entries, f.marshalled, f.written, framed_rest) refl,
        framed f refl held,
        λ ne.
            omega (arith, length-append frame rest, length-write_record f.payload frame f.written),
      )

  -- For a closed segment that can be read, with entries of the shard that marshal to at most 64 MiB
  -- each, where no send fails: the chunks of the transfer are not empty and of at most 64 KiB, and the
  -- file that they make up is read back as exactly the entries of the shard, in their order.
  pub transfer_segment-reads :
      (send_error : ℕ → Option Code) (name : Text) (shard : ℤ) (o : Orchestrator Filter)
      (entries : List LogEntry)
      → ((i : ℕ) → send_error i ≡ none)
      → is_segment_name name ≡ true
      → (name == active_segment_name o.store.0) ≡ false
      → read_segments codec o.store.1 (join_path o.store.0.dir name ∷ []) ≡ ok entries
      → keep (in_shard o.total_shards shard) entries ≢ []
      → All
          (λ e. (frame : Bytes) × IsFrame codec e frame)
          (keep (in_shard o.total_shards shard) entries)
      → (chunks : List Bytes) × (transfer_segment codec lib send_error name shard o
          ≡ (chunks, none))
        × All IsChunk chunks
        × (read_entries codec (suc (length (join_chunks chunks))) (join_chunks chunks)
            ≡ ok (keep (in_shard o.total_shards shard) entries))
  unfolding transfer_segment
  transfer_segment-reads send_error name shard o entries sends named closed reads some_left frames =
      let mine = keep (in_shard o.total_shards shard) entries in
      let (payload, framed_all, held, longer) = frame_entries-Holds mine frames in
      let (chunks, sent, joined, small) =
        stream_frames_joins send_error payload sends (longer some_left) in
      (
        chunks,
        rw (named, closed, reads, framed_all) sent,
        small,
        rw joined (read_entries-Holds codec (suc (length payload)) held (omega arith)),
      )

  -- On a node that serves the entries `all`, `FetchShardEntries` answers with those of the shard that
  -- were received at the given time or later, all of them and no others, ordered by the time of receipt.
  pub fetch_shard_entries-IsSorted :
      (shard since_unix_ns : ℤ) (o : Orchestrator Filter) (all : List LogEntry)
      → IsServing codec o all
      → (es : List LogEntry) × (fetch_shard_entries codec lib shard since_unix_ns o ≡ ok es)
        × IsSorted received_less es
        × Perm es (keep (λ e. in_shard o.total_shards shard e && since since_unix_ns e) all)
  unfolding fetch_shard_entries segment_paths
  fetch_shard_entries-IsSorted shard since_unix_ns o all h =
      let asked = keep (λ e. in_shard o.total_shards shard e && since since_unix_ns e) all in
      (
        sort_by received_less asked,
        rw
            (
              fetch_shard_entries,
              segment_paths,
              read_segments-Stored codec o.store.1 h.stored.ready.stored,
            )
            refl,
        sort_by-IsSorted received_less received_less-IsWeakOrder asked,
        sort_by-perm received_less asked,
      )
