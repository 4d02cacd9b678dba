-- ===== src/Node/Start.antt =====
-- cmd/node/main.go: the manager and the index that a storage node starts with.
use distributed_log_query_en.Storage.Disk.{Disk}
use distributed_log_query_en.Prelude.{some, Bool, none, ℕ, Option}
use distributed_log_query_en.Prelude.Text.{Text}
use distributed_log_query_en.Storage.Manager.{Store}
use distributed_log_query_en.Types.{Codec}
use distributed_log_query_en.Storage.Manager.Open.{new_manager}
use distributed_log_query_en.Index.{new_index, rebuild_from_segments, Index}
use distributed_log_query_en.Storage.Read.{read_segment, ReadError}
use distributed_log_query_en.Prelude.Result.{Result, ok, err}

module _ (codec : Codec) {Filter : Type 0} where
  unfoldable pub with_index : Store Filter → Result ReadError Index → Option (Index × Store Filter)
  with_index st (err e) = none
  with_index st (ok idx) = some (idx, st)

  -- The index is built again from the segments of the manager. The process ends where one of them
  -- fails.
  unfoldable pub start_node : Text → ℕ → Bool → Disk Filter → Option (Index × Store Filter)
  unfolding with_index
  start_node dir max_segment_bytes bloom_enabled d =
      elim (new_manager dir max_segment_bytes bloom_enabled d) [
        | none ↦ none
        | some st ↦
            with_index st (rebuild_from_segments (read_segment codec st.1) st.0.paths new_index)
      ]
