-- ===== src/Storage/Manager/Load.antt =====
-- Loading a transferred segment, `LoadSegment` of internal/storage/manager.go.
use distributed_log_query_en.Storage.Segment.{open_segment}
use distributed_log_query_en.Prelude.Result.{ok-injective, ok}
use distributed_log_query_en.Storage.Disk.{join_path, Disk}
use distributed_log_query_en.Storage.Manager.{
  segment_name, Manager, open_new_segment, load_segment, list_closed_segments,
}
use distributed_log_query_en.Prelude.{
  sym, ==_refl, init-snoc, inr, ◌∙◌, ap, inl, length-append, last?, arith, Option-cases, leb, init,
  length, ◌<◌, ◌++◌, ◌≡◌, refl, true, false, some, List, [], ◌∷◌,
}
use distributed_log_query_en.Prelude.Text.{Text, text_key}
use distributed_log_query_en.Prelude.PathSet.{contains-append, contains}

closed-snoc :
    {Filter : Type 0} (m : Manager Filter) (xs : List Text) (path : Text)
    → m.paths ≡ xs ++ path ∷ []
    → 0 < length xs
    → list_closed_segments m ≡ xs
unfolding list_closed_segments
closed-snoc m xs path e h =
    let long : leb (length m.paths) 1 ≡ false =
      ground (arith, length-append xs (path ∷ []), ap (λ ps. length ps) e) in
    rw (list_closed_segments, long) (ap (λ ps. init ps) e ∙ init-snoc xs path)

module _ {Filter : Type 0} where
  loaded :
      (path : Text) (m m' : Manager Filter) (d : Disk Filter)
      → load_segment path (m, d) ≡ ok m'
      → (active : Text) × (m'.paths ≡ (init m.paths ++ path ∷ []) ++ active ∷ [])
        × (m'.dir ≡ m.dir)
        × (m'.next_seq ≡ m.next_seq)
  unfolding load_segment
  loaded path m m' d h = elim (Option-cases (last? m.paths)) [
    | inl empty ↦ cc (rw (load_segment, empty) at h)
    | inr (active, l) ↦
        let e = ok-injective _ m' (rw (load_segment, l) at h) in
        (active, sym (ap (λ x. x.paths) e), sym (ap (λ x. x.dir) e), sym (ap (λ x. x.next_seq) e))
  ]

  -- A loaded segment whose name has the next sequence number becomes the active segment at the next
  -- rotation, while its path also stands among the closed ones: the number is not raised.
  pub load_segment_reopened :
      (path : Text) (m m' : Manager Filter) (d : Disk Filter)
      → path ≡ join_path m.dir (segment_name m.next_seq)
      → load_segment path (m, d) ≡ ok m'
      → (contains (list_closed_segments (open_new_segment (m', d)).0) path ≡ true)
        × ((open_new_segment (m', d)).0.active ≡ some (open_segment path d).0)
  unfolding open_new_segment
  load_segment_reopened path m m' d named h =
      let (active, paths, dir, seq) = loaded path m m' d h in
      let name : path ≡ join_path m'.dir (segment_name m'.next_seq) = cc (named, dir, seq) in
      (
        rw
            (
              closed-snoc (open_new_segment (m', d)).0 m'.paths
                  (join_path m'.dir (segment_name m'.next_seq)) refl
                  (ground (
                    arith,
                    ap (λ ps. length ps) paths,
                    length-append (init m.paths ++ path ∷ []) (active ∷ []),
                  )),
              paths,
              contains-append,
            )
            (unfold contains in
              ground (arith, ==_refl path, contains-append (init m.paths) (path ∷ []) path)),
        ap (λ p. some (open_segment p d).0) (sym name),
      )
