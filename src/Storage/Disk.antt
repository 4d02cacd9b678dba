-- ===== src/Storage/Disk.antt =====
-- The data directory as the storage code sees it: segment files by path, bloom sidecars by path, and
-- the ACTIVE marker. Calls of the operating system are taken to succeed; a missing file is modelled.
use distributed_log_query_en.Prelude.{
  ==_refl, arith, some, none, ◌≡◌, Bool, false, Option, [], ◌∷◌, ◌++◌, if◌then◌else◌, or_else,
  length, leb, drop, ◌-◌, ◌==◌, nat_eqb,
}
use distributed_log_query_en.Prelude.Text.{Text, text, text_key}
use distributed_log_query_en.Prelude.Dict.{get-put, Dict, get, put, delete}
use distributed_log_query_en.Types.{Bytes}

pub record Disk (Filter : Type 0) : Type 0 where
  pub segments : Dict Text Bytes
  pub sidecars : Dict Text Filter
  pub active_marker : Option Text

-- filepath.Join(dir, name) for a clean dir and a plain name
unfoldable pub join_path : Text → Text → Text
join_path dir name = dir ++ text "/" ++ name

-- filepath.Base: what follows the last slash
unfoldable pub base_from : Text → Text → Text
base_from cur [] = cur
base_from cur (c ∷ s) = base_from (if nat_eqb c b'/' then [] else cur ++ c ∷ []) s

unfoldable pub base : Text → Text
unfolding base_from
base path = base_from [] path

-- strings.HasSuffix
unfoldable pub has_suffix : Text → Text → Bool
has_suffix s suffix =
    if leb (length suffix) (length s) then drop (length s - length suffix) s == suffix else false

module _ {Filter : Type 0} where
  -- f.Write at the end of the file
  unfoldable pub append_file : Text → Bytes → Disk Filter → Disk Filter
  append_file path written d = record d {
    segments = put path (or_else (get path d.segments) [] ++ written) d.segments;
  }

  -- os.OpenFile with O_CREATE
  unfoldable pub create_file : Text → Disk Filter → Disk Filter
  create_file path d = record d {
    segments = put path (or_else (get path d.segments) []) d.segments;
  }

  -- os.Remove at a segment path
  unfoldable pub remove_file : Text → Disk Filter → Disk Filter
  remove_file path d = record d { segments = delete path d.segments }

  unfoldable pub remove_sidecar : Text → Disk Filter → Disk Filter
  remove_sidecar path d = record d { sidecars = delete path d.sidecars }

  -- os.Rename, which fails and changes nothing where the file is missing
  unfoldable pub rename_file : Text → Text → Disk Filter → Disk Filter
  rename_file from to d = elim (get from d.segments) [
    | none ↦ d
    | some content ↦ record d { segments = put to content (delete from d.segments) }
  ]

  pub get-rename_file :
      (from to : Text) (stream : Bytes) (d : Disk Filter)
      → get from d.segments ≡ some stream
      → get to (rename_file from to d).segments ≡ some stream
  unfolding rename_file
  get-rename_file from to stream d there =
      rw (rename_file, there, get-put) (ground (arith, ==_refl to))
