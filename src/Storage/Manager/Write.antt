-- ===== src/Storage/Manager/Write.antt =====
-- Rotation and appends of internal/storage/manager.go.
use distributed_log_query_en.Prelude.{◌+◌, none, some, List, length, ltb, last?, if◌then◌else◌}
use distributed_log_query_en.Prelude.Text.{Text, text_key}
use distributed_log_query_en.Prelude.Dict.{put}
use distributed_log_query_en.Prelude.Result.{Result, ok, err, ◌>>=◌}
use distributed_log_query_en.Types.{LogEntry, Codec, Bytes}
use distributed_log_query_en.Storage.Bloom.{BloomLib, bloom_path, build_bloom, write_bloom}
use distributed_log_query_en.Storage.Segment
use distributed_log_query_en.Storage.Segment.{Segment}
use distributed_log_query_en.Storage.Disk.{Disk}
use distributed_log_query_en.Storage.Record.{RecordError}
use distributed_log_query_en.Storage.Read.{ReadError, read_segment}
use distributed_log_query_en.Storage.Manager.{
  Manager, Store, ManagerError, closed_manager, marshal_failed, index_out_of_range, append_failed,
  open_new_segment, tokenize_entries,
}

module _ (codec : Codec) (lib : BloomLib) where
  open codec use {marshal}
  open lib use {Filter}

  unfoldable pub add_sidecar : Text → Result ReadError (List LogEntry) → Store Filter → Store Filter
  add_sidecar closing (err _) st = st
  add_sidecar closing (ok entries) (m, d) =
      let tokens = tokenize_entries entries in
      let bf = build_bloom lib tokens (length tokens) in
      (record m { blooms = put closing bf m.blooms }, write_bloom lib (bloom_path closing) bf d)

  -- What rotation does between closing the old segment and opening the new one.
  unfoldable pub write_sidecar : Text → Store Filter → Store Filter
  unfolding add_sidecar
  write_sidecar closing (m, d) =
      if m.bloom_enabled then add_sidecar closing (read_segment codec d closing) (m, d) else (m, d)

  unfoldable pub rotate : Store Filter → Result ManagerError (Store Filter)
  rotate (m, d) = elim (last? m.paths) [
    | none ↦ err index_out_of_range
    | some closing ↦ ok (open_new_segment (write_sidecar closing (m, d)))
  ]

  unfoldable pub appended :
      Manager Filter
      → Result RecordError (Segment × Disk Filter)
      → Result ManagerError (Store Filter)
  appended m (err r) = err (append_failed r)
  appended m (ok (seg, d)) = ok (record m { active = some seg }, d)

  -- m.active.Append(data)
  unfoldable pub append_active : Bytes → Store Filter → Result ManagerError (Store Filter)
  unfolding appended
  append_active payload (m, d) = elim m.active [
    | none ↦ err closed_manager
    | some seg ↦ appended m (Segment.append seg payload d)
  ]

  -- The size test, the rotation, and the write.
  unfoldable pub append_payload :
      Segment → Bytes → Store Filter → Result ManagerError (Store Filter)
  unfolding append_active
  append_payload seg payload st = do
    st' ←
        (if ltb st.0.max_segment_bytes (seg.size + (4 + length payload)) then rotate st else ok st)
    append_active payload st'

  unfoldable pub append_locked : LogEntry → Store Filter → Result ManagerError (Store Filter)
  unfolding append_payload
  append_locked e (m, d) = elim m.active [
    | none ↦ err closed_manager
    | some seg ↦ elim (marshal e) [
      | none ↦ err marshal_failed
      | some payload ↦ append_payload seg payload (m, d)
    ]
  ]

  -- The store that a failed append leaves: the rotation before the write has taken place.
  unfoldable pub after_failed_append : LogEntry → Store Filter → Store Filter
  after_failed_append e (m, d) = elim m.active [
    | none ↦ (m, d)
    | some seg ↦ elim (marshal e) [
      | none ↦ (m, d)
      | some payload ↦
          if ltb m.max_segment_bytes (seg.size + (4 + length payload))
          then elim (rotate (m, d)) [ err _ ↦ (m, d) | ok st ↦ st ]
          else (m, d)
    ]
  ]

  unfoldable pub append_with_path :
      LogEntry → Store Filter → Result ManagerError (Text × Store Filter)
  append_with_path e st = do
    st' ← append_locked e st
    elim (last? st'.0.paths) [ none ↦ err index_out_of_range | some path ↦ ok (path, st') ]
