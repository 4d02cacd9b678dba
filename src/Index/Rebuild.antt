-- ===== src/Index/Rebuild.antt =====
-- The index after a rebuild from segment files, and after a segment is removed.
use mathlib.Core.Path.{subst}
use distributed_log_query_en.Prelude.{
  ◌≡◌, true, false, List, [], ◌∷◌, ◌==◌, arith, All, inl, inr, Bool-cases, ==_refl,
}
use distributed_log_query_en.Prelude.Text.{Text, text_key}
use distributed_log_query_en.Prelude.Dict.{get-delete, keys-get-none}
use distributed_log_query_en.Prelude.PathSet.{contains}
use distributed_log_query_en.Prelude.Int.{ℤ}
use distributed_log_query_en.Prelude.Result.{Result, ok, err, Result-cases}
use distributed_log_query_en.Types.{LogEntry}
use distributed_log_query_en.Index.{Index, add_all, remove_segment, rebuild_from_segments, resolve}
use distributed_log_query_en.Index.Resolve.{contains-resolve}
use distributed_log_query_en.Index.Coverage.{Covers, Covers-add_all, Covers-add_all_keep}

module _ {E : Type 0} (read : Text → Result E (List LogEntry)) where
  abbrev CoversOk : Text → LogEntry → Result E Index → Type 0
  CoversOk path e (ok idx) = Covers idx path e
  CoversOk path e (err _) = Unit

  rebuild_keeps :
      (e : LogEntry) (path : Text) (paths : List Text) (idx idx' : Index)
      → Covers idx path e
      → rebuild_from_segments read paths idx ≡ ok idx'
      → Covers idx' path e
  unfolding rebuild_from_segments
  rebuild_keeps e path [] idx idx' c h = subst (λ r. CoversOk path e r) h c
  rebuild_keeps e path (p ∷ ps) idx idx' c h = elim (Result-cases (read p)) [
    | inl (es, r) ↦
        rebuild_keeps e path ps (add_all es p idx) idx' (Covers-add_all_keep e path p es idx c)
          (ground (arith, r))
    | inr (x, r) ↦ absurd (ground (arith, r))
  ]

  rebuild_keeps_all :
      (path : Text) (paths : List Text) (es : List LogEntry) (idx idx' : Index)
      → All (Covers idx path) es
      → rebuild_from_segments read paths idx ≡ ok idx'
      → All (Covers idx' path) es
  rebuild_keeps_all path paths [] idx idx' cs h = tt
  rebuild_keeps_all path paths (e ∷ es) idx idx' (c, cs) h =
      (rebuild_keeps e path paths idx idx' c h, rebuild_keeps_all path paths es idx idx' cs h)

  -- After a rebuild that succeeds, every entry that was read of a listed segment is covered under
  -- its path, whatever the index held before.
  pub rebuild_from_segments-Covers :
      (path : Text) (paths : List Text) (es : List LogEntry) (idx idx' : Index)
      → rebuild_from_segments read paths idx ≡ ok idx'
      → contains paths path ≡ true
      → read path ≡ ok es
      → All (Covers idx' path) es
  unfolding rebuild_from_segments contains
  rebuild_from_segments-Covers path [] es idx idx' h listed readable = cc
  rebuild_from_segments-Covers path (p ∷ ps) es idx idx' h listed readable =
      elim (Result-cases (read p)) [
        | inr (x, r) ↦ absurd (ground (arith, r))
        | inl (es', r) ↦ elim (Bool-cases (p == path)) [
          | inr other ↦
              rebuild_from_segments-Covers path ps es (add_all es' p idx) idx' (ground (arith, r))
                (ground arith) readable
          | inl here ↦
              let same : p ≡ path = (text_key.eqb_iff p path).0 here in
              let es-es' : es ≡ es' = cc (r, readable, same) in
              rebuild_keeps_all path ps es (add_all es path idx) idx' (Covers-add_all path es idx)
                (ground (arith, r, same, es-es'))
        ]
      ]

-- After a segment is removed no request resolves to it.
pub resolve-remove_segment :
    (idx : Index) (path : Text) (tokens : List Text) (namespace service : Text)
    (start_time end_time : ℤ)
    → contains (resolve (remove_segment path idx) tokens namespace service start_time end_time) path
      ≡ false
unfolding remove_segment
resolve-remove_segment idx path tokens namespace service start_time end_time = ground (
  arith,
  contains-resolve (remove_segment path idx) tokens namespace service start_time end_time path,
  keys-get-none path (remove_segment path idx).segment_meta,
  get-delete path path idx.segment_meta,
  ==_refl path,
)
