-- ===== src/Ingest/CatchUp/Laws.antt =====
-- What a replica has after internal/ingest/catchup.go, and what a transfer does to a file of its name.
use distributed_log_query_en.Prelude.Dict.{get-put, put, get}
use distributed_log_query_en.Storage.Manager.Stored.{read_segments-Stored}
use distributed_log_query_en.Storage.Manager.{load_segment, segment_paths}
use mathlib.Core.List.{append_assoc, append-nil}
use mathlib.Core.Path.{subst}
use distributed_log_query_en.Prelude.Result.{Result-cases, ok}
use distributed_log_query_en.Storage.Disk.{get-rename_file, join_path}
use distributed_log_query_en.Storage.Read.{read_segments, read_segment}
use distributed_log_query_en.Storage.Read.Frames.{read_entries-Holds, IsFrame, Holds}
use distributed_log_query_en.Ingest.Orchestrator.Laws.{append_and_add-IsServing, IsServing}
use distributed_log_query_en.Ingest.Orchestrator.{Orchestrator}
use distributed_log_query_en.Ingest.Convert.{proto_to_entry}
use distributed_log_query_en.Prelude.Int.{pos, ℤ}
use distributed_log_query_en.Entries.{ids}
use distributed_log_query_en.Storage.Bloom.{BloomLib}
use distributed_log_query_en.Prelude.Text.{text, text_key, Text}
use distributed_log_query_en.Types.{to_int32, Bytes, LogEntry, Codec}
use distributed_log_query_en.Ingest.CatchUp.{
  place_file, load_placed, fetch_tail, local_ids, latest_received_at, joined, Primary,
  receive_segment, append_unknown, ids_since,
}
use distributed_log_query_en.Prelude.PathSet.{contains}
use distributed_log_query_en.Prelude.{
  suc, ◌∙◌, ap, inr, inl, Bool-cases, sym, ◌^◌, ◌<◌, none, length, some, ◌+◌, All-map, refl,
  ==_refl, true, arith, ◌||◌, ◌≡◌, ◌++◌, All, not, ℕ, keep, List, [], ◌∷◌,
}

contains-ids_append :
    (xs ys : List LogEntry) (id : Text)
    → contains (ids (xs ++ ys)) id ≡ (contains (ids xs) id || contains (ids ys) id)
unfolding contains
contains-ids_append [] ys id = refl
contains-ids_append (x ∷ xs) ys id = ground (arith, contains-ids_append xs ys id)

-- The known IDs are IDs of the entries.
ids_since-ids :
    (total : ℕ) (shard since_ns : ℤ) (es : List LogEntry) (id : Text)
    → contains (ids_since total shard since_ns es) id ≡ true
    → contains (ids es) id ≡ true
unfolding ids_since contains
ids_since-ids total shard since_ns [] id h = h
ids_since-ids total shard since_ns (e ∷ es) id h =
    ground (arith, ids_since-ids total shard since_ns es id)

abbrev pub fresh : List Text → List LogEntry → List LogEntry
fresh known es = keep (λ e. not (contains known e.id)) es

-- An entry is known, or among the fresh ones.
fresh-ids :
    (known : List Text) (es : List LogEntry)
    → All (λ e. (contains known e.id || contains (ids (fresh known es)) e.id) ≡ true) es
unfolding keep contains
fresh-ids known [] = tt
fresh-ids known (e ∷ es) = (
  ground (arith, ==_refl e.id),
  All-map (λ x. (contains known x.id || contains (ids (fresh known es)) x.id) ≡ true)
      (λ x. (contains known x.id || contains (ids (fresh known (e ∷ es))) x.id) ≡ true) es
      (λ x h. ground arith) (fresh-ids known es),
)

module _ (codec : Codec) (lib : BloomLib) where
  open lib use {Filter}

  append_unknown-IsServing :
      (known : List Text) (pbs : List LogEntry) (o : Orchestrator Filter) (all : List LogEntry)
      → IsServing codec o all
      → All (λ e. (frame : Bytes) × IsFrame codec e frame) (fresh known pbs)
      → o.store.0.next_seq + length pbs < 2 ^ 64
      → (o' : Orchestrator Filter) × (append_unknown codec lib known pbs o
          ≡ (length (fresh known pbs), o'))
        × IsServing codec o' (all ++ fresh known pbs)
  unfolding append_unknown proto_to_entry keep
  append_unknown-IsServing known [] o all h frames room =
      (o, refl, subst (IsServing codec o) (sym (append-nil all)) h)
  append_unknown-IsServing known (pb ∷ pbs) o all h frames room =
      elim (Bool-cases (contains known pb.id)) [
        | inl old ↦
            let (o', run, serving) =
              append_unknown-IsServing known pbs o all h (rw old at frames) (omega arith) in
            (o', rw (append_unknown, old) run, rw old serving)
        | inr new ↦
            let ((frame, f), rest) = rw new at frames in
            let (o1, wrote, serving1, used) =
              append_and_add-IsServing codec lib o all pb frame h f (omega arith) in
            let (o', run, serving) =
              append_unknown-IsServing known pbs o1 (all ++ pb ∷ []) serving1 rest
                (omega (arith, used)) in
            (
              o',
              rw (append_unknown, new, wrote, run) refl,
              rw new (
                  subst (IsServing codec o') (append_assoc all (pb ∷ []) (fresh known pbs))
                    serving),
            )
      ]

  -- What the node does not know of an answer.
  abbrev pub news : ℕ → Orchestrator Filter → List LogEntry → List LogEntry
  news shard o answered =
      fresh (local_ids codec lib shard (latest_received_at codec lib shard o) o) answered

  local_ids-eq :
      (shard : ℕ) (since_ns : ℤ) (o : Orchestrator Filter) (all : List LogEntry)
      → IsServing codec o all
      → local_ids codec lib shard since_ns o ≡ ids_since o.total_shards (pos shard) since_ns all
  unfolding local_ids segment_paths
  local_ids-eq shard since_ns o all h =
      rw (local_ids, segment_paths, read_segments-Stored codec o.store.1 h.stored.ready.stored) refl

  local_ids-ids :
      (shard : ℕ) (since_ns : ℤ) (o : Orchestrator Filter) (all : List LogEntry) (id : Text)
      → IsServing codec o all
      → contains (local_ids codec lib shard since_ns o) id ≡ true
      → contains (ids all) id ≡ true
  local_ids-ids shard since_ns o all id h known =
      ids_since-ids o.total_shards (pos shard) since_ns all id
        (ap (λ known. contains known id) (sym (local_ids-eq shard since_ns o all h)) ∙ known)

  -- When the primary of a serving node answers the request for a shard's entries since the latest local
  -- one, then the entries of the answer whose IDs are not known since that time are appended, in their
  -- order, and counted, the others are left out, and the node goes on serving; it then has an entry of
  -- each ID that was answered. The new entries have to marshal to at most 64 MiB, and sequence numbers
  -- have to be left.
  pub fetch_tail-IsServing :
      (primary : Primary) (shard : ℕ) (o : Orchestrator Filter) (all answered : List LogEntry)
      → IsServing codec o all
      → primary.fetch (to_int32 shard) (latest_received_at codec lib shard o) ≡ some answered
      → All (λ e. (frame : Bytes) × IsFrame codec e frame) (news shard o answered)
      → o.store.0.next_seq + length answered < 2 ^ 64
      → (o' : Orchestrator Filter) × (fetch_tail codec lib primary shard o
          ≡ (length (news shard o answered), o'))
        × IsServing codec o' (all ++ news shard o answered)
        × All (λ e. contains (ids (all ++ news shard o answered)) e.id ≡ true) answered
  unfolding fetch_tail
  fetch_tail-IsServing primary shard o all answered h fetched frames room =
      let since_ns = latest_received_at codec lib shard o in
      let known = local_ids codec lib shard since_ns o in
      let (o', run, serving) = append_unknown-IsServing known answered o all h frames room in
      (
        o',
        rw (fetch_tail, fetched) run,
        serving,
        All-map (λ e. (contains known e.id || contains (ids (news shard o answered)) e.id) ≡ true)
            (λ e. contains (ids (all ++ news shard o answered)) e.id ≡ true) answered
            (λ e k. ground (
              arith,
              contains-ids_append all (news shard o answered) e.id,
              local_ids-ids shard since_ns o all e.id h,
            ))
            (fresh-ids known answered),
      )

  load_placed-disk :
      (dest : Text) (o : Orchestrator Filter) → (load_placed codec lib dest o).1.store.1 ≡ o.store.1
  unfolding load_placed
  load_placed-disk dest o = elim (Result-cases (load_segment dest o.store)) [
    | inr (e, failed) ↦ rw (load_placed, failed) refl
    | inl (m, loaded) ↦ elim (Result-cases (read_segments codec o.store.1 (dest ∷ []))) [
      | inr (r, e) ↦ rw (load_placed, loaded, e) refl
      | inl (es, e) ↦ rw (load_placed, loaded, e) refl
    ]
  ]

  place_file-get :
      (dest : Text) (content : Bytes) (o : Orchestrator Filter)
      → get dest (place_file codec lib dest content o).store.1.segments ≡ some content
  unfolding place_file
  place_file-get dest content o =
      let tmp = dest ++ text ".tmp" in
      get-rename_file tmp dest content
        (record o.store.1 { segments = put tmp content o.store.1.segments })
        (rw get-put (ground (arith, ==_refl tmp)))

  -- A transfer that is received whole replaces the file of that name: whatever the file held, the path
  -- then reads as the transferred entries alone.
  pub receive_segment-replaces :
      (name : Text) (chunks : List Bytes) (es : List LogEntry) (o : Orchestrator Filter)
      → Holds codec (joined chunks) es
      → read_segment codec
          (receive_segment codec lib name (some (chunks, none)) o).1.store.1
          (join_path o.store.0.dir name)
        ≡ ok es
  unfolding receive_segment read_segment
  receive_segment-replaces name chunks es o h =
      let dest = join_path o.store.0.dir name in
      let placed = place_file codec lib dest (joined chunks) o in
      rw (load_placed-disk dest placed, read_segment, place_file-get dest (joined chunks) o)
        (read_entries-Holds codec (suc (length (joined chunks))) h (omega arith))
