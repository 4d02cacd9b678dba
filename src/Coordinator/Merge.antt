-- ===== src/Coordinator/Merge.antt =====
-- internal/coordinator/merge.go: combining the nodes' answers.
pub mod Laws
pub mod Results
use distributed_log_query_en.Prelude.{
  ℕ, Bool, true, false, ◌&&◌, Option, none, some, List, [], ◌∷◌, ◌++◌, length, take, drop, ltb,
  if◌then◌else◌,
}
use distributed_log_query_en.Prelude.Text.{Text, text_key}
use distributed_log_query_en.Prelude.PathSet.{contains}
use distributed_log_query_en.Prelude.Int.{ℤ, pos, negsuc, less}
use distributed_log_query_en.Prelude.Order.{sort_by}
use distributed_log_query_en.Types.{LogEntry, to_int32}
use distributed_log_query_en.Entries.{entry_less}

pub record NodeResult : Type 0 where
  pub node_id : Text
  pub entries : List LogEntry
  pub total : ℤ
  pub error : Option Text

pub record MergeOutput : Type 0 where
  pub entries : List LogEntry
  pub total : ℤ
  pub partial : Bool

-- The variables of the loop over the nodes' answers.
pub record Merging : Type 0 where
  pub seen : List Text
  pub combined : List LogEntry
  pub partial : Bool

abbrev pub new_merging : Merging
new_merging = record { seen = []; combined = []; partial = false }

unfoldable pub merge_entries : List LogEntry → Merging → Merging
merge_entries [] s = s
merge_entries (e ∷ es) s = elim (contains s.seen e.id) [
  | true ↦ merge_entries es s
  | false ↦ merge_entries es (record s { seen = e.id ∷ s.seen; combined = s.combined ++ (e ∷ []) })
]

unfoldable pub merge_parts : List NodeResult → Merging → Merging
unfolding merge_entries
merge_parts [] s = s
merge_parts (p ∷ ps) s = elim p.error [
  | some _ ↦ merge_parts ps (record s { partial = true })
  | none ↦ merge_parts ps (merge_entries p.entries s)
]

-- combined[off:], which panics on a negative offset. A larger one than the length is cut to it.
unfoldable pub slice_from : ℤ → List LogEntry → Option (List LogEntry)
slice_from (pos off) es = some (if ltb (length es) off then drop (length es) es else drop off es)
slice_from (negsuc _) es = none

-- A limit that is not positive is no limit.
unfoldable pub cut_to : ℤ → List LogEntry → List LogEntry
cut_to (pos n) es = if ltb 0 n && ltb n (length es) then take n es else es
cut_to (negsuc _) es = es

-- What follows the sort. There is no output where the code panics.
unfoldable pub merge_output : ℤ → ℤ → List LogEntry → Bool → Option MergeOutput
merge_output offset limit sorted partial = elim (slice_from offset sorted) [
  | none ↦ none
  | some es ↦
      some
        (record { entries = cut_to limit es; total = to_int32 (length sorted); partial = partial })
]

unfoldable pub merge_results : List NodeResult → ℤ → ℤ → Option MergeOutput
merge_results parts offset limit =
    let s = merge_parts parts new_merging in
    merge_output offset limit (sort_by entry_less s.combined) s.partial
