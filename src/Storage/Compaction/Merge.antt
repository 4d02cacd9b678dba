-- ===== src/Storage/Compaction/Merge.antt =====
-- internal/storage/compaction.go: the merge pass of the compactor. `renames` says whether the
-- rename to a path succeeds. A threshold that is not positive is 0.
pub mod Merged
pub mod Unrenamed
use distributed_log_query_en.Prelude.{
  nat_key, ℕ, Bool, true, false, not, ◌&&◌, Option, none, some, List, [], ◌∷◌, ◌++◌, ◌==◌, length,
  keep, ltb, leb, if◌then◌else◌,
}
use distributed_log_query_en.Prelude.Text.{Text, text, text_key}
use distributed_log_query_en.Prelude.Dict.{Dict, get, delete}
use distributed_log_query_en.Prelude.PathSet.{contains}
use distributed_log_query_en.Prelude.Result.{Result, ok, err}
use distributed_log_query_en.Types.{LogEntry, Codec}
use distributed_log_query_en.Storage.Disk.{Disk, remove_file, remove_sidecar, rename_file}
use distributed_log_query_en.Storage.Bloom.{BloomLib, bloom_path, build_bloom, write_bloom}
use distributed_log_query_en.Storage.Segment.{Segment, open_segment}
use distributed_log_query_en.Storage.Segment
use distributed_log_query_en.Storage.Read.{ReadError, read_segments}
use distributed_log_query_en.Storage.Manager.{
  Manager, Store, list_closed_segments, load_bloom, tokenize_entries,
}
use distributed_log_query_en.Storage.Compaction.{Compacted, forget_segment}
use distributed_log_query_en.Index.{Index, add_all}

abbrev pub tmp_path : Text → Text
tmp_path path = path ++ text ".tmp"

unfoldable pub forget_all : List Text → Option Index → Option Index
unfolding forget_segment
forget_all [] idx = idx
forget_all (p ∷ ps) idx = forget_all ps (forget_segment p idx)

unfoldable pub add_merged : List LogEntry → Text → Option Index → Option Index
add_merged all path none = none
add_merged all path (some idx) = some (add_all all path idx)

module _ {Filter : Type 0} where
  unfoldable pub drop_files : List Text → Disk Filter → Disk Filter
  drop_files [] d = d
  drop_files (p ∷ ps) d = drop_files ps (remove_sidecar (bloom_path p) (remove_file p d))

  unfoldable pub delete_all : List Text → Dict Text Filter → Dict Text Filter
  delete_all [] blooms = blooms
  delete_all (p ∷ ps) blooms = delete_all ps (delete p blooms)

  -- The path list and the filters of the manager after a merge into the first path.
  unfoldable pub merged_manager : Text → List Text → Disk Filter → Manager Filter → Manager Filter
  unfolding delete_all
  merged_manager new_path rest d m = record m {
    paths = keep (λ p. not (contains rest p)) m.paths;
    blooms =
        if m.bloom_enabled
        then load_bloom new_path d (delete new_path (delete_all rest m.blooms))
        else m.blooms;
  }

module _ (codec : Codec) (lib : BloomLib) where
  open codec use {marshal}
  open lib use {Filter}

  -- Whether every entry was written, and the disk then.
  unfoldable pub append_all : Segment → List LogEntry → Disk Filter → Bool × Disk Filter
  append_all seg [] d = (true, d)
  append_all seg (e ∷ es) d = elim (marshal e) [
    | none ↦ (false, d)
    | some payload ↦ elim (Segment.append seg payload d) [
      | err r ↦ (false, d)
      | ok (seg', d') ↦ append_all seg' es d'
    ]
  ]

  unfoldable pub merged_sidecar : Bool → List LogEntry → Text → Disk Filter → Disk Filter
  merged_sidecar enabled all new_path d =
      let tokens = tokenize_entries all in
      if enabled && not (length tokens == 0)
      then write_bloom lib (bloom_path new_path) (build_bloom lib tokens (length tokens)) d
      else d

  -- What was read of a path goes back into the index under it.
  unfoldable pub re_added : Text → Result ReadError (List LogEntry) → Index → Index
  re_added op (err e) idx = idx
  re_added op (ok restored) idx = add_all restored op idx

  unfoldable pub restore_all : Disk Filter → List Text → Index → Index
  unfolding re_added
  restore_all d [] idx = idx
  restore_all d (op ∷ paths) idx =
      restore_all d paths (re_added op (read_segments codec d (op ∷ [])) idx)

  unfoldable pub restore_index : Disk Filter → List Text → Option Index → Option Index
  unfolding restore_all
  restore_index d paths none = none
  restore_index d paths (some idx) = some (restore_all d paths idx)

  -- What follows the writing of the temporary file.
  unfoldable pub finish_merge :
      (Text → Bool)
      → Text
      → List Text
      → List LogEntry
      → Bool × Disk Filter
      → Compacted Filter
      → Compacted Filter
  unfolding merged_sidecar merged_manager add_merged forget_all restore_index
  finish_merge renames new_path rest all (false, d1) ((m, d), idx) =
      ((m, remove_file (tmp_path new_path) d1), idx)
  finish_merge renames new_path rest all (true, d1) ((m, d), idx) =
      let forgotten = forget_all (new_path ∷ rest) idx in
      if renames new_path
      then (let d2 =
            merged_sidecar m.bloom_enabled all new_path
              (rename_file (tmp_path new_path) new_path d1) in
          (
            (merged_manager new_path rest d2 m, drop_files rest d2),
            add_merged all new_path forgotten,
          ))
      else (let d2 = remove_file (tmp_path new_path) d1 in
          ((m, d2), restore_index d2 (new_path ∷ rest) forgotten))

  unfoldable pub merge_read :
      (Text → Bool)
      → Text
      → List Text
      → Result ReadError (List LogEntry)
      → Compacted Filter
      → Compacted Filter
  merge_read renames new_path rest (err e) st = st
  merge_read renames new_path rest (ok all) ((m, d), idx) =
      let (seg, d0) = open_segment (tmp_path new_path) (remove_file (tmp_path new_path) d) in
      finish_merge renames new_path rest all (append_all seg all d0) ((m, d), idx)

  unfoldable pub merge_run : (Text → Bool) → List Text → Compacted Filter → Compacted Filter
  merge_run renames [] st = st
  merge_run renames (new_path ∷ rest) st =
      merge_read renames new_path rest (read_segments codec st.0.1 (new_path ∷ rest)) st

  unfoldable pub flush : (Text → Bool) → List Text → Compacted Filter → Compacted Filter
  flush renames run st = if leb 2 (length run) then merge_run renames run st else st

  -- The loop over the closed segments; `run` is the run of small ones so far.
  unfoldable pub merge_loop :
      (Text → Bool) → ℕ → List Text → List Text → Compacted Filter → Compacted Filter
  unfolding flush
  merge_loop renames threshold run [] st = flush renames run st
  merge_loop renames threshold run (p ∷ ps) st = elim (get p st.0.1.segments) [
    | none ↦ merge_loop renames threshold [] ps (flush renames run st)
    | some stream ↦
        if ltb (length stream) threshold
        then merge_loop renames threshold (run ++ p ∷ []) ps st
        else merge_loop renames threshold [] ps (flush renames run st)
  ]

  unfoldable pub run_merge_pass : (Text → Bool) → ℕ → Compacted Filter → Compacted Filter
  unfolding merge_loop
  run_merge_pass renames threshold st =
      if threshold == 0
      then st
      else if ltb (length (list_closed_segments st.0.0)) 2
      then st
      else merge_loop renames threshold [] (list_closed_segments st.0.0) st
