-- ===== src/Coordinator/Merge/Laws.antt =====
-- What `MergeResults` of internal/coordinator/merge.go returns.
use distributed_log_query_en.Prelude.Text.{text_key}
use distributed_log_query_en.Prelude.PathSet.{contains}
use distributed_log_query_en.Types.{LogEntry}
use distributed_log_query_en.Entries.{dedup_from}
use distributed_log_query_en.Coordinator.Merge.{
  merge_parts, Merging, ◌∷◌, NodeResult, merge_entries,
}
use mathlib.Core.List.{append_assoc, append-nil}
use distributed_log_query_en.Prelude.{
  sym, ap, [], inr, arith, inl, ◌||◌, Option-cases, Bool-cases, true, none, some, ◌++◌, false, Bool,
  List, ◌≡◌, refl,
}

-- What the nodes that answered without an error said.
unfoldable pub answers : List NodeResult → List LogEntry
answers [] = []
answers (p ∷ ps) = elim p.error [ none ↦ p.entries ++ answers ps | some _ ↦ answers ps ]

unfoldable pub any_error : List NodeResult → Bool
any_error [] = false
any_error (p ∷ ps) = elim p.error [ none ↦ any_error ps | some _ ↦ true ]

merge_entries-combined :
    (es : List LogEntry) (s : Merging)
    → (merge_entries es s).combined ≡ s.combined ++ dedup_from s.seen es
unfolding merge_entries dedup_from
merge_entries-combined [] s = sym (append-nil _)
merge_entries-combined (e ∷ es) s = elim (Bool-cases (contains s.seen e.id)) [
  | inl old ↦ rw (old, dedup_from, merge_entries) (merge_entries-combined es s)
  | inr new ↦
      rw (new, dedup_from, merge_entries)
        (cc (
          merge_entries-combined es
              (record s { seen = e.id ∷ s.seen; combined = s.combined ++ (e ∷ []) }),
          append_assoc s.combined (e ∷ []) (dedup_from (e.id ∷ s.seen) es),
        ))
]

dedup_from-append :
    (es ys : List LogEntry) (s : Merging)
    → dedup_from s.seen (es ++ ys) ≡ dedup_from s.seen es ++ dedup_from (merge_entries es s).seen ys
unfolding merge_entries dedup_from
dedup_from-append [] ys s = refl
dedup_from-append (e ∷ es) ys s = elim (Bool-cases (contains s.seen e.id)) [
  | inl old ↦ rw (old, dedup_from, merge_entries) (dedup_from-append es ys s)
  | inr new ↦
      rw (new, dedup_from, merge_entries)
        (ap (◌∷◌ e) (
          dedup_from-append es ys
            (record s { seen = e.id ∷ s.seen; combined = s.combined ++ (e ∷ []) })))
]

merge_entries-partial :
    (es : List LogEntry) (s : Merging) → (merge_entries es s).partial ≡ s.partial
unfolding merge_entries
merge_entries-partial [] s = refl
merge_entries-partial (e ∷ es) s = elim (Bool-cases (contains s.seen e.id)) [
  | inl old ↦ rw (old, merge_entries) (merge_entries-partial es s)
  | inr new ↦ rw (new, merge_entries) (merge_entries-partial es _)
]

pub merge_parts-combined :
    (ps : List NodeResult) (s : Merging)
    → (merge_parts ps s).combined ≡ s.combined ++ dedup_from s.seen (answers ps)
unfolding merge_parts answers
merge_parts-combined [] s = unfold dedup_from in sym (append-nil _)
merge_parts-combined (p ∷ ps) s = elim (Option-cases p.error) [
  | inr (msg, e) ↦
      rw (e, merge_parts, answers) (merge_parts-combined ps (record s { partial = true }))
  | inl e ↦
      rw (e, merge_parts, answers)
        (cc (
          merge_parts-combined ps (merge_entries p.entries s),
          merge_entries-combined p.entries s,
          dedup_from-append p.entries (answers ps) s,
          append_assoc s.combined (dedup_from s.seen p.entries)
              (dedup_from (merge_entries p.entries s).seen (answers ps)),
        ))
]

pub merge_parts-partial :
    (ps : List NodeResult) (s : Merging) → (merge_parts ps s).partial ≡ (s.partial || any_error ps)
unfolding merge_parts any_error
merge_parts-partial [] s = ground arith
merge_parts-partial (p ∷ ps) s = elim (Option-cases p.error) [
  | inr (msg, e) ↦
      rw (e, merge_parts, any_error)
        (ground (arith, merge_parts-partial ps (record s { partial = true })))
  | inl e ↦
      rw (e, merge_parts, any_error)
        (ground (
          arith,
          merge_parts-partial ps (merge_entries p.entries s),
          merge_entries-partial p.entries s,
        ))
]
