-- ===== src/Coordinator/Merge/Results.antt =====
-- What `MergeResults` of internal/coordinator/merge.go promises to the client.
use distributed_log_query_en.Entries.Unique.{sorted_unique}
use distributed_log_query_en.Coordinator.Merge.Laws.{
  merge_parts-partial, merge_parts-combined, any_error, answers,
}
use distributed_log_query_en.Entries.{dedup_from, entry_less, ids}
use distributed_log_query_en.Entries.Laws.{
  Distinct-take-drop, dedup_from-All, contains-dedup_from, Distinct-dedup_from, contains-ids_sort,
  entry_order, Distinct-sort, Distinct,
}
use distributed_log_query_en.Prelude.Order.{
  length-sort_by, IsSorted-drop, IsSorted-take, sort_by-All, sort_by-IsSorted, IsSorted, sort_by,
}
use distributed_log_query_en.Prelude.Int.{pos, ℤ}
use distributed_log_query_en.Types.{to_int32, LogEntry}
use distributed_log_query_en.Coordinator.Merge.{
  merge_output, new_merging, MergeOutput, NodeResult, merge_results, cut_to, slice_from,
}
use distributed_log_query_en.Prelude.Int.{negsuc}
use distributed_log_query_en.Prelude.{
  take_all, inr, sym, inl, ◌∙◌, ap, length, ◌&&◌, drop_all, [], arith, ltb, drop, Bool-cases, some,
  All, take, ℕ, List, ◌≡◌, refl,
}
use distributed_log_query_en.Prelude.Text.{Text, text_key}
use distributed_log_query_en.Prelude.PathSet.{contains}

-- All the answers, each ID once, in order.
unfoldable pub merged : List NodeResult → List LogEntry
merged parts = sort_by entry_less (dedup_from [] (answers parts))

pub record IsMerged (parts : List NodeResult) (offset : ℕ) (limit : ℤ) (out : MergeOutput)
    : Type 0 where
  pub sorted : IsSorted entry_less out.entries
  pub distinct : Distinct (ids out.entries)
  pub window : out.entries ≡ cut_to limit (drop offset (merged parts))
  pub counted : out.total ≡ to_int32 (length (dedup_from [] (answers parts)))
  pub incomplete : out.partial ≡ any_error parts

slice_from-eq_drop : (off : ℕ) (es : List LogEntry) → slice_from (pos off) es ≡ some (drop off es)
unfolding slice_from
slice_from-eq_drop off es = ground (arith, drop_all off es, drop_all (length es) es)

cut_to-eq_take : (limit : ℤ) (es : List LogEntry) → (n : ℕ) × (cut_to limit es ≡ take n es)
unfolding cut_to
cut_to-eq_take (pos n) es = elim (Bool-cases (ltb 0 n && ltb n (length es))) [
  | inl e ↦ (n, rw e refl)
  | inr e ↦ (length es, rw e (sym (take_all es)))
]
cut_to-eq_take (negsuc n) es = (length es, sym (take_all es))

merge_results-eq_output :
    (parts : List NodeResult) (offset limit : ℤ)
    → merge_results parts offset limit ≡ merge_output offset limit (merged parts) (any_error parts)
unfolding merge_results merged
merge_results-eq_output parts offset limit =
    cc (merge_parts-combined parts new_merging, merge_parts-partial parts new_merging)

merged-IsSorted : (parts : List NodeResult) → IsSorted entry_less (merged parts)
unfolding merged
merged-IsSorted parts = sort_by-IsSorted entry_less entry_order (dedup_from [] (answers parts))

merged-Distinct : (parts : List NodeResult) → Distinct (ids (merged parts))
unfolding merged
merged-Distinct parts =
    Distinct-sort (dedup_from [] (answers parts)) (Distinct-dedup_from [] (answers parts))

-- The window of a merge is in order and has each ID once.
window-laws :
    (parts : List NodeResult) (off : ℕ) (limit : ℤ)
    → IsSorted entry_less (cut_to limit (drop off (merged parts)))
      × Distinct (ids (cut_to limit (drop off (merged parts))))
window-laws parts off limit =
    let all = merged parts in
    let (n, e) = cut_to-eq_take limit (drop off all) in
    rw e (
      IsSorted-take entry_less n (drop off all)
          (IsSorted-drop entry_less off all (merged-IsSorted parts)),
      Distinct-take-drop n off all (merged-Distinct parts),
    )

-- For an offset that is not negative there is a result: the window that the offset and the limit
-- cut from the answers of the nodes that did not fail, newest first and each ID once. It counts the
-- distinct answers before the cut, and it is partial exactly if a node failed.
pub merge_results-IsMerged :
    (parts : List NodeResult) (off : ℕ) (limit : ℤ)
    → (out : MergeOutput) × (merge_results parts (pos off) limit ≡ some out)
      × IsMerged parts off limit out
unfolding merge_output
merge_results-IsMerged parts off limit =
    let (s, d) = window-laws parts off limit in
    (
      record {
        entries = cut_to limit (drop off (merged parts));
        total = to_int32 (length (merged parts));
        partial = any_error parts;
      },
      rw (merge_results-eq_output, merge_output, slice_from-eq_drop off (merged parts)) refl,
      record {
        sorted = s;
        distinct = d;
        window = refl;
        counted =
            unfold merged in
            ap to_int32 (length-sort_by entry_less (dedup_from [] (answers parts)));
        incomplete = refl;
      },
    )

contains-merged :
    (parts : List NodeResult) (a : Text)
    → contains (ids (merged parts)) a ≡ contains (ids (answers parts)) a
unfolding merged contains
contains-merged parts a = ground (
  arith,
  contains-ids_sort (dedup_from [] (answers parts)) a,
  contains-dedup_from [] (answers parts) a,
)

merged-All :
    (P : LogEntry → Type 0) (parts : List NodeResult) → All P (answers parts) → All P (merged parts)
unfolding merged
merged-All P parts h =
    sort_by-All entry_less P (dedup_from [] (answers parts)) (dedup_from-All P [] (answers parts) h)

-- The result depends on nothing but which entries the nodes answered with and whether one failed:
-- neither the order in which the answers arrive nor the replicas' copies of an entry change it,
-- where entries of one ID are one entry.
pub merge_results_same :
    (by_id : Text → LogEntry) (parts others : List NodeResult) (offset limit : ℤ)
    → All (λ e. e ≡ by_id e.id) (answers parts)
    → All (λ e. e ≡ by_id e.id) (answers others)
    → ((a : Text) → contains (ids (answers parts)) a ≡ contains (ids (answers others)) a)
    → any_error parts ≡ any_error others
    → merge_results parts offset limit ≡ merge_results others offset limit
merge_results_same by_id parts others offset limit p q h e =
    let same =
      sorted_unique by_id (merged parts) (merged others) (merged-All _ parts p)
        (merged-All _ others q) (merged-IsSorted parts) (merged-IsSorted others)
        (merged-Distinct parts) (merged-Distinct others)
        (λ a. contains-merged parts a ∙ h a ∙ sym (contains-merged others a)) in
    rw (merge_results-eq_output parts, merge_results-eq_output others, same, e) refl
