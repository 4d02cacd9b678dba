-- ===== src/Tests/Retained.antt =====
-- Runs of the compactor at concrete inputs.
use distributed_log_query_en.Storage.Compaction.Merge.Unrenamed.{merge_run_not_renamed}
use distributed_log_query_en.Prelude.PathSet.{contains}
use distributed_log_query_en.Storage.Read.Frames.{framed, blank}
use distributed_log_query_en.Storage.Compaction.Merge.Merged.{merge_run-reads}
use distributed_log_query_en.Index.Coverage.{Covers}
use distributed_log_query_en.Prelude.Result.{ok}
use distributed_log_query_en.Storage.Compaction.Merge.{tmp_path, merge_run}
use distributed_log_query_en.Storage.Read.{read_segment}
use distributed_log_query_en.Storage.Manager.Stored.{no_files, read_segments-Stored, file, Stored}
use distributed_log_query_en.Index.{new_index, Index}
use distributed_log_query_en.Types.{LogEntry}
use distributed_log_query_en.Storage.Disk.{Disk}
use distributed_log_query_en.Storage.Compaction.Retention.{run_retention_pass-keeps}
use distributed_log_query_en.Prelude.Int.{less, pos}
use distributed_log_query_en.Prelude.Dict.{get}
use distributed_log_query_en.Storage.Compaction.{run_retention_pass, Compacted}
use distributed_log_query_en.Prelude.{
  ◌==◌, false, true, All, some, [], ◌∷◌, all_pass, ◌≡◌, refl, List, none,
}
use distributed_log_query_en.Prelude.Text.{text_eqb, text, Text, text_key}
use distributed_log_query_en.Tests.Toy.{toy_bloom, sample, toy_codec}
use distributed_log_query_en.Tests.Stored.{
  IsFrame-b, IsFrame-a, frame_b, frame_a, path_0, disk_0, manager_0,
}
use distributed_log_query_en.Tests.Queried.{read_a, entries_a}

abbrev compacted : Compacted (List Text)
compacted = ((manager_0, disk_0), none)

run_retention_pass-keeps_example :
    get path_0 (run_retention_pass toy_codec (pos 30) (pos 5) compacted).0.1.segments
    ≡ get path_0 disk_0.segments
run_retention_pass-keeps_example =
    run_retention_pass-keeps toy_codec (pos 30) (pos 5) path_0 entries_a compacted read_a
      (unfold all_pass less in refl)

abbrev pub first_path : Text
first_path = text "d/0.seg"

abbrev pub second_path : Text
second_path = text "d/1.seg"

abbrev pub two_files : Disk (List Text)
two_files = record {
  segments = (first_path, frame_a) ∷ (second_path, frame_b) ∷ [];
  sidecars = [];
  active_marker = none;
}

abbrev entries_ab : List LogEntry
entries_ab = sample (text "a") ∷ sample (text "b") ∷ []

two_files-Stored : Stored toy_codec two_files.segments (first_path ∷ second_path ∷ []) entries_ab
unfolding get text_eqb
two_files-Stored =
    file refl (framed IsFrame-a refl blank) (file refl (framed IsFrame-b refl blank) no_files refl)
      refl

merge_run-reads_example :
    (idx' : Index) × (read_segment toy_codec
        (merge_run toy_codec toy_bloom
          (λ p. true)
          (first_path ∷ second_path ∷ [])
          ((manager_0, two_files), some new_index)).0.1
        first_path
      ≡ ok entries_ab)
    × ((merge_run toy_codec toy_bloom
          (λ p. true)
          (first_path ∷ second_path ∷ [])
          ((manager_0, two_files), some new_index)).1
        ≡ some idx')
    × All (Covers idx' first_path) entries_ab
merge_run-reads_example =
    merge_run-reads toy_codec toy_bloom (λ p. true) first_path (second_path ∷ []) entries_ab
      manager_0 two_files new_index (read_segments-Stored toy_codec two_files two_files-Stored)
      ((frame_a, IsFrame-a), ((frame_b, IsFrame-b), tt)) refl (unfold contains text_eqb in refl)

merge_run_not_renamed_example :
    (idx' : Index) × (d' : Disk (List Text)) × (merge_run toy_codec toy_bloom
        (λ p. false)
        (first_path ∷ second_path ∷ [])
        ((manager_0, two_files), some new_index)
      ≡ ((manager_0, d'), some idx'))
    × ((p : Text)
        → (tmp_path first_path == p) ≡ false
        → get p d'.segments ≡ get p two_files.segments)
    × ((p : Text) (es : List LogEntry)
        → contains (first_path ∷ second_path ∷ []) p ≡ true
        → read_segment toy_codec two_files p ≡ ok es
        → All (Covers idx' p) es)
merge_run_not_renamed_example =
    merge_run_not_renamed toy_codec toy_bloom (λ p. false) first_path (second_path ∷ []) entries_ab
      manager_0 two_files new_index (read_segments-Stored toy_codec two_files two_files-Stored)
      ((frame_a, IsFrame-a), ((frame_b, IsFrame-b), tt)) refl (unfold contains text_eqb in refl)
