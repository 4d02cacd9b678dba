-- ===== src/Entries.antt =====
-- Removing repeated IDs from entries and ordering them, as internal/query/executor.go and
-- internal/coordinator/merge.go both do.
pub mod Laws
pub mod Unique
use distributed_log_query_en.Prelude.{Bool, true, false, List, [], ◌∷◌, ◌==◌, map, if◌then◌else◌}
use distributed_log_query_en.Prelude.Text.{Text, text_key, text_less}
use distributed_log_query_en.Prelude.PathSet.{contains}
use distributed_log_query_en.Prelude.Int.{less, int_key}
use distributed_log_query_en.Types.{LogEntry}

abbrev pub ids : List LogEntry → List Text
ids [] = []
ids (e ∷ es) = e.id ∷ ids es

-- The first entry of each ID is kept.
unfoldable pub dedup_from : List Text → List LogEntry → List LogEntry
dedup_from seen [] = []
dedup_from seen (e ∷ es) = elim (contains seen e.id) [
  | true ↦ dedup_from seen es
  | false ↦ e ∷ dedup_from (e.id ∷ seen) es
]

-- The newest entry first; equal times are ordered by ID.
unfoldable pub entry_less : LogEntry → LogEntry → Bool
entry_less a b =
    if a.timestamp == b.timestamp then text_less a.id b.id else less b.timestamp a.timestamp
