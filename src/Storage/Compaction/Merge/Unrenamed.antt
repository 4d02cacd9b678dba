-- ===== src/Storage/Compaction/Merge/Unrenamed.antt =====
-- What a merge leaves when its file cannot be renamed, internal/storage/compaction.go.
use mathlib.Core.Path.{subst}
use distributed_log_query_en.Storage.Read.Frames.{blank}
use distributed_log_query_en.Storage.Manager.{Manager}
use mathlib.Core.List.{append-nil}
use distributed_log_query_en.Prelude.Dict.{get-delete, delete, get-put, get}
use distributed_log_query_en.Index.{Index}
use distributed_log_query_en.Prelude.Text.{text_key, Text}
use distributed_log_query_en.Prelude.PathSet.{contains}
use distributed_log_query_en.Prelude.{
  ap, inr, sym, ◌∙◌, some, All-map, or_else, inl, length, refl, Bool-cases, arith, ◌+◌, Bool, true,
  All, [], false, ◌∷◌, ◌≡◌, ◌==◌, List,
}
use distributed_log_query_en.Storage.Disk.{append_file, remove_file, create_file, Disk}
use distributed_log_query_en.Storage.Segment.{append_file-other, append_eq, Segment, open_segment}
use distributed_log_query_en.Storage.Compaction.Merge.{
  tmp_path, restore_index, finish_merge, merge_read, merge_run, restore_all, re_added, append_all,
}
use distributed_log_query_en.Storage.Bloom.{BloomLib}
use distributed_log_query_en.Types.{LogEntry, Codec}
use distributed_log_query_en.Index.Coverage.{Covers, Covers-add_all, Covers-add_all_keep}
use distributed_log_query_en.Storage.Compaction.Merge.Merged.{
  Fits, append_all-Holds, blank_tmp, forget_all-some,
}
use distributed_log_query_en.Prelude.Result.{Result, ok, err}
use distributed_log_query_en.Storage.Read.{skip_missing, read_segments, read_segment, ReadError}

module _ (codec : Codec) (lib : BloomLib) where
  open lib use {Filter}

  append_all-other :
      (seg : Segment) (es : List LogEntry) (d : Disk Filter) (p : Text)
      → Fits codec es
      → (seg.path == p) ≡ false
      → get p (append_all codec lib seg es d).1.segments ≡ get p d.segments
  unfolding append_all
  append_all-other seg [] d p fits other = refl
  append_all-other seg (e ∷ es) d p ((frame, f), fits) other =
      let seg1 : Segment = record seg { size = seg.size + (4 + length f.payload) } in
      rw (append_all, f.marshalled, append_eq seg f.payload frame d f.written)
        (append_all-other seg1 es (append_file seg.path frame d) p fits other
          ∙ append_file-other seg.path p frame d other)

  opened-other :
      (path p : Text) (d : Disk Filter)
      → (path == p) ≡ false
      → get p (open_segment path (remove_file path d)).1.segments ≡ get p d.segments
  unfolding open_segment create_file remove_file
  opened-other path p d other = ground (
    arith,
    get-put path p (or_else (get path (delete path d.segments)) []) (delete path d.segments),
    get-delete path p d.segments,
  )

  re_added-keep :
      (e : LogEntry) (p q : Text) (r : Result ReadError (List LogEntry)) (idx : Index)
      → Covers idx p e
      → Covers (re_added codec lib q r idx) p e
  unfolding re_added
  re_added-keep e p q (err x) idx c = c
  re_added-keep e p q (ok es) idx c = Covers-add_all_keep e p q es idx c

  restore_all-keep :
      (d : Disk Filter) (paths : List Text) (e : LogEntry) (p : Text) (idx : Index)
      → Covers idx p e
      → Covers (restore_all codec lib d paths idx) p e
  unfolding restore_all
  restore_all-keep d [] e p idx c = c
  restore_all-keep d (q ∷ paths) e p idx c =
      restore_all-keep d paths e p _ (re_added-keep e p q (read_segments codec d (q ∷ [])) idx c)

  restored-Covers :
      (d : Disk Filter) (p : Text) (es : List LogEntry) (idx : Index)
      → read_segment codec d p ≡ ok es
      → All (Covers (re_added codec lib p (read_segments codec d (p ∷ [])) idx) p) es
  unfolding re_added read_segments skip_missing
  restored-Covers d p es idx read =
      rw (re_added, read_segments, read, skip_missing, append-nil) (Covers-add_all p es idx)

  -- Each path of the run that can be read is covered again.
  restore_all-Covers :
      (d : Disk Filter) (paths : List Text) (p : Text) (es : List LogEntry) (idx : Index)
      → contains paths p ≡ true
      → read_segment codec d p ≡ ok es
      → All (Covers (restore_all codec lib d paths idx) p) es
  unfolding restore_all contains
  restore_all-Covers d [] p es idx here read = cc here
  restore_all-Covers d (q ∷ paths) p es idx here read = elim (Bool-cases (q == p)) [
    | inl same ↦
        let next = re_added codec lib q (read_segments codec d (q ∷ [])) idx in
        All-map _ (Covers (restore_all codec lib d paths next) p) es
          (λ e c. restore_all-keep d paths e p next c)
          (subst
            (λ x. All (Covers (re_added codec lib x (read_segments codec d (x ∷ [])) idx) p) es)
            (sym ((text_key.eqb_iff q p).0 same)) (restored-Covers d p es idx read))
    | inr other ↦ restore_all-Covers d paths p es _ (rw other at here) read
  ]

  read_segment-same :
      (d d' : Disk Filter) (p : Text)
      → get p d'.segments ≡ get p d.segments
      → read_segment codec d' p ≡ read_segment codec d p
  unfolding read_segment
  read_segment-same d d' p same = rw (read_segment, same) refl

  contains-apart :
      (paths : List Text) (p q : Text)
      → contains paths p ≡ false
      → contains paths q ≡ true
      → (p == q) ≡ false
  contains-apart paths p q absent here = elim (Bool-cases (p == q)) [
    | inr other ↦ other
    | inl same ↦
        let equal = (text_key.eqb_iff p q).0 same in cc (ap (contains paths) equal, absent, here)
  ]

  -- A merge whose file cannot be renamed leaves the manager and every segment file as they were, apart
  -- from its own temporary file, and the index covers again what the files of the run hold. The run has
  -- to be readable, every entry has to fit a record, and no path of the run is the temporary one.
  pub merge_run_not_renamed :
      (renames : Text → Bool) (new_path : Text) (rest : List Text) (all : List LogEntry)
      (m : Manager Filter) (d : Disk Filter) (idx : Index)
      → read_segments codec d (new_path ∷ rest) ≡ ok all
      → Fits codec all
      → renames new_path ≡ false
      → contains (new_path ∷ rest) (tmp_path new_path) ≡ false
      → (idx' : Index) × (d' : Disk Filter) × (merge_run codec lib renames
            (new_path ∷ rest)
            ((m, d), some idx)
          ≡ ((m, d'), some idx'))
        × ((p : Text) → (tmp_path new_path == p) ≡ false → get p d'.segments ≡ get p d.segments)
        × ((p : Text) (es : List LogEntry)
            → contains (new_path ∷ rest) p ≡ true
            → read_segment codec d p ≡ ok es
            → All (Covers idx' p) es)
  unfolding merge_run merge_read finish_merge restore_index open_segment remove_file
  merge_run_not_renamed renames new_path rest all m d idx read fits fails apart =
      let tmp = tmp_path new_path in
      let start = open_segment tmp (remove_file tmp d) in
      let (d1, wrote, holds) =
        append_all-Holds codec lib start.0 all [] start.1 fits
          (rw (blank_tmp codec lib tmp d) blank) in
      let d' = remove_file tmp d1 in
      let (left, gone) = forget_all-some (new_path ∷ rest) idx in
      let kept : (p : Text) → (tmp == p) ≡ false → get p d'.segments ≡ get p d.segments = λ p other.
        rw (get-delete, other)
          (sym (ap (λ r. get p r.1.segments) wrote)
            ∙ append_all-other start.0 all start.1 p fits other
            ∙ opened-other tmp p d other) in
      (
        restore_all codec lib d' (new_path ∷ rest) left,
        d',
        rw (merge_run, read, merge_read, wrote, finish_merge, gone, fails, restore_index) refl,
        kept,
        λ p es here reads. restore_all-Covers d' (new_path ∷ rest) p es left here (
            read_segment-same d d' p (kept p (contains-apart (new_path ∷ rest) tmp p apart here))
            ∙ reads),
      )
