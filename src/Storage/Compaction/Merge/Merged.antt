-- ===== src/Storage/Compaction/Merge/Merged.antt =====
-- What a merge of segments leaves, internal/storage/compaction.go.
use mathlib.Core.Path.{subst}
use distributed_log_query_en.Storage.Compaction.{forget_segment}
use distributed_log_query_en.Index.Coverage.{Covers-add_all, Covers}
use distributed_log_query_en.Index.{remove_segment, add_all, Index}
use distributed_log_query_en.Storage.Manager.{Manager}
use distributed_log_query_en.Prelude.Result.{ok}
use distributed_log_query_en.Storage.Read.{read_segments, read_segment}
use distributed_log_query_en.Prelude.Dict.{delete, get-put, get-delete, get}
use distributed_log_query_en.Storage.Disk.{
  get-rename_file, rename_file, create_file, append_file, remove_sidecar, remove_file, Disk,
}
use distributed_log_query_en.Storage.Read.Frames.{
  blank, Holds-append, read_entries-Holds, Holds, IsFrame,
}
use distributed_log_query_en.Prelude.PathSet.{contains}
use distributed_log_query_en.Storage.Segment.{
  append_eq, content-append_file, open_segment, content, Segment,
}
use distributed_log_query_en.Storage.Compaction.Merge.{
  add_merged, forget_all, tmp_path, merge_read, merge_run, finish_merge, merged_sidecar, drop_files,
  append_all,
}
use distributed_log_query_en.Storage.Bloom.{bloom_path, write_bloom, BloomLib}
use distributed_log_query_en.Types.{Bytes, LogEntry, Codec}
use mathlib.Core.List.{append-nil, append_assoc}
use distributed_log_query_en.Prelude.{
  sym, ap, Option, or_else, suc, ==_refl, length, ◌∙◌, ◌+◌, ◌++◌, arith, Bool, All, ◌≡◌, refl, true,
  false, some, List, [], ◌∷◌,
}
use distributed_log_query_en.Prelude.Text.{Text, text_key}

pub forget_all-some :
    (ps : List Text) (idx : Index) → (left : Index) × (forget_all ps (some idx) ≡ some left)
unfolding forget_all forget_segment
forget_all-some [] idx = (idx, refl)
forget_all-some (p ∷ ps) idx = forget_all-some ps (remove_segment p idx)

module _ (codec : Codec) where
  -- Every entry marshals to at most 64 MiB.
  abbrev pub Fits : List LogEntry → Type 0
  Fits es = All (λ e. (frame : Bytes) × IsFrame codec e frame) es

  module _ (lib : BloomLib) where
    open lib use {Filter}

    pub append_all-Holds :
        (seg : Segment) (es done : List LogEntry) (d : Disk Filter)
        → Fits es
        → Holds codec (content seg.path d) done
        → (d' : Disk Filter) × (append_all codec lib seg es d ≡ (true, d'))
          × Holds codec (content seg.path d') (done ++ es)
    unfolding append_all
    append_all-Holds seg [] done d fits h = (d, refl, rw append-nil h)
    append_all-Holds seg (e ∷ es) done d ((frame, f), fits) h =
        let seg1 : Segment = record seg { size = seg.size + (4 + length f.payload) } in
        let d1 = append_file seg.path frame d in
        let one : content seg.path d1 ≡ content seg.path d ++ frame =
          ground (arith, ==_refl seg.path, content-append_file seg.path seg.path frame d) in
        let (d', wrote, holds) =
          append_all-Holds seg1 es (done ++ (e ∷ [])) d1 fits (rw one (Holds-append codec h f)) in
        (
          d',
          rw (append_all, f.marshalled, append_eq seg f.payload frame d f.written) wrote,
          rw append_assoc at holds,
        )

    get-drop_files :
        (ps : List Text) (path : Text) (d : Disk Filter)
        → contains ps path ≡ false
        → get path (drop_files ps d).segments ≡ get path d.segments
    unfolding drop_files contains remove_file remove_sidecar
    get-drop_files [] path d h = refl
    get-drop_files (p ∷ ps) path d h =
        get-drop_files ps path (remove_sidecar (bloom_path p) (remove_file p d)) (ground arith)
        ∙ get-delete p path d.segments
        ∙ ground arith

    merged_sidecar-segments :
        (enabled : Bool) (all : List LogEntry) (path : Text) (d : Disk Filter)
        → (merged_sidecar codec lib enabled all path d).segments ≡ d.segments
    unfolding merged_sidecar write_bloom
    merged_sidecar-segments enabled all path d = ground arith

    read_held :
        (d : Disk Filter) (path : Text) (stream : Bytes) (es : List LogEntry)
        → get path d.segments ≡ some stream
        → Holds codec stream es
        → read_segment codec d path ≡ ok es
    unfolding read_segment
    read_held d path stream es g h =
        rw (read_segment, g) (read_entries-Holds codec (suc (length stream)) h (omega arith))

    pub blank_tmp :
        (path : Text) (d : Disk Filter)
        → content path (open_segment path (remove_file path d)).1 ≡ []
    unfolding open_segment create_file remove_file
    blank_tmp path d = ground (
      arith,
      ==_refl path,
      get-delete path path d.segments,
      get-put path path (or_else (get path (delete path d.segments)) []) (delete path d.segments),
    )

    -- What is appended to stays on the disk.
    append_all-there :
        (seg : Segment) (es : List LogEntry) (d : Disk Filter) (stream : Bytes)
        → Fits es
        → get seg.path d.segments ≡ some stream
        → (stream' : Bytes) × (get seg.path (append_all codec lib seg es d).1.segments
            ≡ some stream')
    unfolding append_all append_file
    append_all-there seg [] d stream fits there = (stream, there)
    append_all-there seg (e ∷ es) d stream ((frame, f), fits) there =
        let seg1 : Segment = record seg { size = seg.size + (4 + length f.payload) } in
        rw (append_all, f.marshalled, append_eq seg f.payload frame d f.written)
          (append_all-there seg1 es (append_file seg.path frame d) (stream ++ frame) fits
            (rw (append_file, get-put, there) (ground (arith, ==_refl seg.path))))

    opened-there :
        (path : Text) (d : Disk Filter)
        → (stream : Bytes) × (get path (open_segment path d).1.segments ≡ some stream)
    unfolding open_segment create_file
    opened-there path d =
        (or_else (get path d.segments) [], rw get-put (ground (arith, ==_refl path)))

    finish-reads :
        (renames : Text → Bool) (new_path : Text) (rest : List Text) (all : List LogEntry)
        (d1 : Disk Filter) (m : Manager Filter) (d : Disk Filter) (idx : Option Index)
        (stream : Bytes)
        → renames new_path ≡ true
        → contains rest new_path ≡ false
        → get (tmp_path new_path) d1.segments ≡ some stream
        → Holds codec stream all
        → read_segment codec
            (finish_merge codec lib renames new_path rest all (true, d1) ((m, d), idx)).0.1
            new_path
          ≡ ok all
    unfolding finish_merge
    finish-reads renames new_path rest all d1 m d idx stream succeeds other written h =
        let moved = rename_file (tmp_path new_path) new_path d1 in
        let d2 = merged_sidecar codec lib m.bloom_enabled all new_path moved in
        rw (finish_merge, succeeds)
          (read_held (drop_files rest d2) new_path stream all
            (get-drop_files rest new_path d2 other
              ∙ ap (λ s. get new_path s)
                  (merged_sidecar-segments m.bloom_enabled all new_path moved)
              ∙ get-rename_file (tmp_path new_path) new_path stream d1 written)
            h)

    finish-index :
        (renames : Text → Bool) (new_path : Text) (rest : List Text) (all : List LogEntry)
        (d1 : Disk Filter) (m : Manager Filter) (d : Disk Filter) (idx left : Index)
        → renames new_path ≡ true
        → forget_all (new_path ∷ rest) (some idx) ≡ some left
        → (finish_merge codec lib renames new_path rest all (true, d1) ((m, d), some idx)).1
          ≡ some (add_all all new_path left)
    unfolding finish_merge add_merged
    finish-index renames new_path rest all d1 m d idx left succeeds gone = rw (gone, succeeds) refl

    -- After a run of segments is merged, the first path holds the entries of all of them, in their
    -- order, where the segments can be read, every entry fits a record, the rename succeeds, and the
    -- first path does not stand in the run again. The index of the compactor covers each of them under that path.
    pub merge_run-reads :
        (renames : Text → Bool) (new_path : Text) (rest : List Text) (all : List LogEntry)
        (m : Manager Filter) (d : Disk Filter) (idx : Index)
        → read_segments codec d (new_path ∷ rest) ≡ ok all
        → Fits all
        → renames new_path ≡ true
        → contains rest new_path ≡ false
        → (idx' : Index) × (read_segment codec
              (merge_run codec lib renames (new_path ∷ rest) ((m, d), some idx)).0.1
              new_path
            ≡ ok all)
          × ((merge_run codec lib renames (new_path ∷ rest) ((m, d), some idx)).1 ≡ some idx')
          × All (Covers idx' new_path) all
    unfolding merge_run merge_read open_segment
    merge_run-reads renames new_path rest all m d idx read fits succeeds other =
        let tmp = tmp_path new_path in
        let start = open_segment tmp (remove_file tmp d) in
        let (d1, wrote, holds) =
          append_all-Holds start.0 all [] start.1 fits (rw (blank_tmp tmp d) blank) in
        let (first, opened) = opened-there tmp (remove_file tmp d) in
        let (stream, kept) = append_all-there start.0 all start.1 first fits opened in
        let written : get tmp d1.segments ≡ some stream =
          ap (λ r. get tmp r.1.segments) (sym wrote) ∙ kept in
        let held : Holds codec stream all =
          subst (λ o. Holds codec (or_else o []) all) written holds in
        let merged : merge_run codec lib renames (new_path ∷ rest) ((m, d), some idx)
            ≡ finish_merge codec lib renames new_path rest all (true, d1) ((m, d), some idx) =
          rw (merge_run, read, merge_read, wrote) refl in
        let (left, gone) = forget_all-some (new_path ∷ rest) idx in
        (
          add_all all new_path left,
          rw merged (
              finish-reads renames new_path rest all d1 m d (some idx) stream succeeds other written
                held),
          rw merged (finish-index renames new_path rest all d1 m d idx left succeeds gone),
          Covers-add_all new_path all left,
        )
