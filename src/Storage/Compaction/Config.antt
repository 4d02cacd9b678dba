-- ===== src/Storage/Compaction/Config.antt =====
-- internal/storage/compaction.go: the settings of the compactor and the loop that runs both passes.
use distributed_log_query_en.Storage.Compaction.Merge.{run_merge_pass}
use distributed_log_query_en.Storage.Compaction.{run_retention_pass, Compacted}
use distributed_log_query_en.Storage.Bloom.{BloomLib}
use distributed_log_query_en.Prelude.Text.{Text}
use distributed_log_query_en.Types.{Codec}
use distributed_log_query_en.Prelude.{[], if◌then◌else◌, ◌∷◌, List, Bool, ◌*◌, ℕ}
use distributed_log_query_en.Prelude.Int.{less, negsuc, pos, ℤ, sub}

pub record CompactorConfig : Type 0 where
  pub merge_threshold_bytes : ℕ
  pub retention_days : ℤ
  pub interval_seconds : ℤ

unfoldable pub default_compactor_config : CompactorConfig
default_compactor_config = record {
  merge_threshold_bytes = 32 * 1024 * 1024;
  retention_days = pos 7;
  interval_seconds = pos 300;
}

abbrev pub nanoseconds_of_day : ℕ
nanoseconds_of_day = 24 * 60 * 60 * 1000000000

-- time.Now() less the retention, which is taken to be less than 292 years, as the Duration of the
-- source holds no more; a negative retention is not used
unfoldable pub cutoff_of : ℤ → ℤ → ℤ
cutoff_of now (pos days) = sub now (pos (days * nanoseconds_of_day))
cutoff_of now (negsuc days) = now

-- A tick of the timer: its time, and the renames that succeed.
pub record Tick : Type 0 where
  pub now : ℤ
  pub renames : Text → Bool

module _ (codec : Codec) (lib : BloomLib) where
  open lib use {Filter}

  unfoldable pub run_ticks : CompactorConfig → List Tick → Compacted Filter → Compacted Filter
  unfolding cutoff_of
  run_ticks cfg [] st = st
  run_ticks cfg (t ∷ ticks) st = run_ticks cfg ticks (
      run_retention_pass codec cfg.retention_days (cutoff_of t.now cfg.retention_days)
        (run_merge_pass codec lib t.renames cfg.merge_threshold_bytes st))

  -- The ticks are those until the context ends.
  unfoldable pub start : CompactorConfig → List Tick → Compacted Filter → Compacted Filter
  unfolding run_ticks
  start cfg ticks st = if less (pos 0) cfg.interval_seconds then run_ticks cfg ticks st else st
