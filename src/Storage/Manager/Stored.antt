-- ===== src/Storage/Manager/Stored.antt =====
-- The entries that the segment files of a path list hold, in order.
use mathlib.Core.List.{append_assoc, append-nil}
use distributed_log_query_en.Prelude.{
  or_else, ==_refl, last?, init, suc, ◌≡◌, refl, false, none, some, List, [], ◌∷◌, ◌++◌, arith,
  length,
}
use distributed_log_query_en.Prelude.Text.{Text, text_key}
use distributed_log_query_en.Prelude.Dict.{Dict, get, put, get-put}
use distributed_log_query_en.Prelude.PathSet.{contains}
use distributed_log_query_en.Prelude.Result.{ok}
use distributed_log_query_en.Types.{LogEntry, Codec, Bytes}
use distributed_log_query_en.Storage.Disk.{Disk}
use distributed_log_query_en.Storage.Read.{read_segments}
use distributed_log_query_en.Storage.Read.Frames.{
  Holds-append, IsFrame, blank, Holds, read_entries-Holds,
}

module _ (codec : Codec) where
  pub data Stored (files : Dict Text Bytes) : List Text → List LogEntry → Type 0 where
    no_files : Stored files [] []
    file :
        {path : Text} {paths : List Text} {stream : Bytes} {es rest all : List LogEntry}
        → get path files ≡ some stream
        → Holds codec stream es
        → Stored files paths rest
        → all ≡ es ++ rest
        → Stored files (path ∷ paths) all

  -- `ReadSegments` returns them.
  pub read_segments-Stored :
      {Filter : Type 0} (d : Disk Filter) {paths : List Text} {all : List LogEntry}
      → Stored d.segments paths all
      → read_segments codec d paths ≡ ok all
  unfolding read_segments
  read_segments-Stored d no_files = refl
  read_segments-Stored d (file {stream = stream} g h s p) = ground (
    arith,
    g,
    read_entries-Holds codec (suc (length stream)) h (omega arith),
    read_segments-Stored d s,
    p,
  )

  -- Every path of the list is a file on the disk.
  pub Stored-on_disk :
      {files : Dict Text Bytes} {paths : List Text} {all : List LogEntry} (fresh : Text)
      → Stored files paths all
      → get fresh files ≡ none
      → contains paths fresh ≡ false
  unfolding contains
  Stored-on_disk fresh no_files absent = refl
  Stored-on_disk fresh (file {path = path} {paths = paths} g h s p) absent =
      ground (arith, text_key.eqb_iff path fresh, Stored-on_disk fresh s absent)

  -- A write to a file that is not in the list changes nothing for the list.
  pub Stored-put :
      {files : Dict Text Bytes} {paths : List Text} {all : List LogEntry} (other : Text)
      (stream : Bytes)
      → Stored files paths all
      → contains paths other ≡ false
      → Stored (put other stream files) paths all
  unfolding contains
  Stored-put other stream no_files away = no_files
  Stored-put other stream' (file {path = path} g h s p) away =
      file (rw get-put (ground (arith, text_key.eqb_iff path other, text_key.eqb_iff other path))) h
        (Stored-put other stream' s (ground arith)) p

  -- A frame at the end of the last file is an entry at the end of the list.
  pub Stored-append_last :
      {files : Dict Text Bytes} {paths : List Text} {all : List LogEntry} {e : LogEntry}
      {frame : Bytes} (active : Text)
      → Stored files paths all
      → last? paths ≡ some active
      → contains (init paths) active ≡ false
      → IsFrame codec e frame
      → Stored (put active (or_else (get active files) [] ++ frame) files) paths (all ++ e ∷ [])
  unfolding last? init contains
  Stored-append_last active no_files l n f = cc
  Stored-append_last {frame = frame} active (file {path = path} {stream = stream} g h no_files p) l
        n f =
      let here : path ≡ active = ground arith in
      file {stream = stream ++ frame} (rw (← here, get-put) (ground (arith, ==_refl path)))
        (Holds-append codec h f) no_files (rw (p, append-nil, append-nil))
  Stored-append_last {frame = frame} active (file {path = path} g h (file g' h' s p') p) l n f =
      file (rw get-put (ground (arith, text_key.eqb_iff path active, text_key.eqb_iff active path)))
        h (Stored-append_last active (file g' h' s p') l (ground arith) f) (rw (p, append_assoc))

  -- An empty file at the end of the list adds no entry.
  pub Stored-snoc :
      {files : Dict Text Bytes} {paths : List Text} {all : List LogEntry} (path : Text)
      → Stored files paths all
      → get path files ≡ some []
      → Stored files (paths ++ path ∷ []) all
  Stored-snoc path no_files g = file g blank no_files refl
  Stored-snoc path (file g' h s p) g = file g' h (Stored-snoc path s g) p
