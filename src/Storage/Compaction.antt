-- ===== src/Storage/Compaction.antt =====
-- internal/storage/compaction.go: the retention pass of the compactor. Times are nanoseconds.
pub mod Retention
pub mod Merge
pub mod Config
use distributed_log_query_en.Prelude.{
  Bool, not, ◌&&◌, Option, none, some, List, [], ◌∷◌, if◌then◌else◌,
}
use distributed_log_query_en.Prelude.Text.{Text}
use distributed_log_query_en.Prelude.Int.{ℤ, pos, less}
use distributed_log_query_en.Prelude.Result.{Result, ok, err}
use distributed_log_query_en.Types.{LogEntry, Codec}
use distributed_log_query_en.Storage.Disk.{Disk, remove_file, remove_sidecar}
use distributed_log_query_en.Storage.Bloom.{bloom_path}
use distributed_log_query_en.Storage.Read.{ReadError, read_segments}
use distributed_log_query_en.Storage.Manager.{Store, list_closed_segments, delete_segment}
use distributed_log_query_en.Index.{Index, remove_segment}

-- The manager and its disk, and the index if the compactor has one.
abbrev pub Compacted : Type 0 → Type 0
Compacted Filter = Store Filter × Option Index

unfoldable pub max_timestamp : ℤ → List LogEntry → ℤ
max_timestamp max_ts [] = max_ts
max_timestamp max_ts (e ∷ es) =
    if less max_ts e.timestamp then max_timestamp e.timestamp es else max_timestamp max_ts es

unfoldable pub is_expired : ℤ → List LogEntry → Bool
unfolding max_timestamp
is_expired cutoff es =
    let max_ts = max_timestamp (pos 0) es in less (pos 0) max_ts && less max_ts cutoff

unfoldable pub forget_segment : Text → Option Index → Option Index
forget_segment path none = none
forget_segment path (some idx) = some (remove_segment path idx)

module _ (codec : Codec) {Filter : Type 0} where
  unfoldable pub drop_segment : Text → Compacted Filter → Compacted Filter
  unfolding forget_segment
  drop_segment path ((m, d), idx) = (
    (delete_segment path m, remove_sidecar (bloom_path path) (remove_file path d)),
    forget_segment path idx,
  )

  -- One step of the loop; a segment that cannot be read is left alone.
  unfoldable pub retain :
      ℤ → Text → Result ReadError (List LogEntry) → Compacted Filter → Compacted Filter
  unfolding drop_segment is_expired
  retain cutoff path (err e) st = st
  retain cutoff path (ok es) st = if is_expired cutoff es then drop_segment path st else st

  unfoldable pub retain_all : ℤ → List Text → Compacted Filter → Compacted Filter
  unfolding retain
  retain_all cutoff [] st = st
  retain_all cutoff (path ∷ paths) st =
      retain_all cutoff paths (retain cutoff path (read_segments codec st.0.1 (path ∷ [])) st)

  -- The cutoff is the retention time before now; a retention of no days keeps everything.
  unfoldable pub run_retention_pass : ℤ → ℤ → Compacted Filter → Compacted Filter
  run_retention_pass retention_days cutoff st =
      if not (less (pos 0) retention_days)
      then st
      else retain_all cutoff (list_closed_segments st.0.0) st
