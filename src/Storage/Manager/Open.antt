-- ===== src/Storage/Manager/Open.antt =====
-- `NewManager` of internal/storage/manager.go: opening a data directory.
use distributed_log_query_en.Prelude.{
  ℕ, Bool, true, false, not, Option, none, some, List, [], ◌∷◌, ◌++◌, ◌==◌, keep, last?, init,
  if◌then◌else◌,
}
use distributed_log_query_en.Prelude.Text.{trim_space, Text, text, text_key, text_less}
use distributed_log_query_en.Prelude.Dict.{Dict, get, keys}
use distributed_log_query_en.Prelude.Order.{sort_by}
use distributed_log_query_en.Storage.Disk.{Disk, join_path, has_suffix}
use distributed_log_query_en.Storage.Segment.{open_segment}
use distributed_log_query_en.Storage.Manager.{
  Store, next_seq_from_matches, open_new_segment, load_bloom,
}

unfoldable pub active_last : Option Text → List Text → List Text
active_last none matches = matches
active_last (some path) matches = elim (last? matches) [
  | none ↦ matches
  | some final ↦ if path == final then matches else keep (λ p. not (p == path)) matches ++ path ∷ []
]

module _ {Filter : Type 0} where
  -- filepath.Glob(dir/*.seg), sorted
  unfoldable pub glob_segments : Disk Filter → List Text
  glob_segments d = sort_by text_less (keep (λ p. has_suffix p (text ".seg")) (keys d.segments))

  -- What the ACTIVE marker names, if it is there. An empty marker names the directory itself.
  unfoldable pub marked_segment : Text → Disk Filter → Option Text
  marked_segment dir d = elim d.active_marker [
    | none ↦ none
    | some content ↦
        let name = trim_space content in
        if name == [] then some dir else elim (get (join_path dir name) d.segments) [
          | none ↦ none
          | some _ ↦ some (join_path dir name)
        ]
  ]

  -- The marked segment, or the last one by name.
  unfoldable pub find_active : Text → Disk Filter → List Text → Option Text
  unfolding marked_segment
  find_active dir d matches = elim (marked_segment dir d) [
    | some path ↦ some path
    | none ↦ last? matches
  ]

  unfoldable pub load_blooms : List Text → Disk Filter → Dict Text Filter → Dict Text Filter
  load_blooms [] d blooms = blooms
  load_blooms (p ∷ ps) d blooms = load_blooms ps d (load_bloom p d blooms)

  -- The first segment of an empty directory, or the active one opened again. A directory is not opened
  -- as a segment.
  unfoldable pub open_active : Option Text → Store Filter → Option (Store Filter)
  open_active none st = some (open_new_segment st)
  open_active (some path) (m, d) =
      let (seg, d') = open_segment path d in
      if path == m.dir then none else some (record m { active = some seg }, d')

  unfoldable pub load_closed : Bool → Option (Store Filter) → Option (Store Filter)
  unfolding load_blooms
  load_closed b none = none
  load_closed false (some st) = some st
  load_closed true (some (m, d)) =
      some (record m { blooms = load_blooms (init m.paths) d m.blooms }, d)

  -- Nothing stands for an error.
  unfoldable pub new_manager : Text → ℕ → Bool → Disk Filter → Option (Store Filter)
  unfolding glob_segments find_active active_last open_active load_closed
  new_manager dir max_segment_bytes bloom_enabled d =
      let matches = glob_segments d in
      let active_path = find_active dir d matches in
      let paths = active_last active_path matches in
      load_closed bloom_enabled (
        open_active active_path (
          record {
            dir = dir;
            max_segment_bytes = max_segment_bytes;
            active = none;
            next_seq = next_seq_from_matches paths;
            paths = paths;
            bloom_enabled = bloom_enabled;
            blooms = [];
          },
          d,
        ))
