-- ===== src/Storage/Segment.antt =====
-- internal/storage/segment.go: one open segment file.
use distributed_log_query_en.Prelude.{
  false, ℕ, ◌+◌, ◌≡◌, [], ◌++◌, arith, length, or_else, length-append, if◌then◌else◌, ◌==◌,
}
use distributed_log_query_en.Prelude.Text.{Text, text_key}
use distributed_log_query_en.Prelude.Dict.{get, get-put}
use distributed_log_query_en.Prelude.{==_refl}
use distributed_log_query_en.Prelude.Result.{Result, ok, ◌>>=◌}
use distributed_log_query_en.Types.{Bytes}
use distributed_log_query_en.Storage.Disk.{Disk, append_file, create_file}
use distributed_log_query_en.Storage.Record.{RecordError, write_record}

pub record Segment : Type 0 where
  pub path : Text
  pub size : ℕ

-- A frame is the payload behind its four-byte length.
pub length-write_record :
    (payload frame : Bytes) → write_record payload ≡ ok frame → length frame ≡ 4 + length payload
unfolding write_record
length-write_record payload frame h = ground arith

module _ {Filter : Type 0} where
  -- The file's bytes; a missing file has none.
  abbrev pub content : Text → Disk Filter → Bytes
  content path d = or_else (get path d.segments) []

  unfoldable pub open_segment : Text → Disk Filter → Segment × Disk Filter
  unfolding create_file
  open_segment path d = (record { path = path; size = length (content path d) }, create_file path d)

  unfoldable pub append : Segment → Bytes → Disk Filter → Result RecordError (Segment × Disk Filter)
  unfolding append_file
  append s payload d = do
    frame ← write_record payload
    ok (record s { size = s.size + (4 + length payload) }, append_file s.path frame d)

  -- The size field is the size of the file.
  abbrev pub IsSized : Segment → Disk Filter → Type 0
  IsSized s d = s.size ≡ length (content s.path d)

  pub open_segment-IsSized :
      (path : Text) (d : Disk Filter) → IsSized (open_segment path d).0 (open_segment path d).1
  unfolding open_segment
  open_segment-IsSized path d =
      ground (arith, ==_refl path, get-put path path (or_else (get path d.segments) []) d.segments)

  pub content-append_file :
      (path other : Text) (written : Bytes) (d : Disk Filter)
      → content other (append_file path written d)
        ≡ (if path == other then content path d ++ written else content other d)
  unfolding append_file
  content-append_file path other written d = ground (
    arith,
    text_key.eqb_iff path other,
    get-put path other (content path d ++ written) d.segments,
  )

  pub append_file-other :
      (path p : Text) (written : Bytes) (d : Disk Filter)
      → (path == p) ≡ false
      → get p (append_file path written d).segments ≡ get p d.segments
  unfolding append_file
  append_file-other path p written d ne =
      ground (arith, get-put path p (or_else (get path d.segments) [] ++ written) d.segments, ne)

  pub append_eq :
      (s : Segment) (payload frame : Bytes) (d : Disk Filter)
      → write_record payload ≡ ok frame
      → append s payload d
        ≡ ok (record s { size = s.size + (4 + length payload) }, append_file s.path frame d)
  unfolding append
  append_eq s payload frame d h = rw h

  -- An append that succeeds writes exactly one frame behind the old bytes, and keeps the size right.
  pub append-IsSized :
      (s : Segment) (payload frame : Bytes) (d : Disk Filter)
      → IsSized s d
      → write_record payload ≡ ok frame
      → IsSized (record s { size = s.size + (4 + length payload) }) (append_file s.path frame d)
  append-IsSized s payload frame d sized h = ground (
    arith,
    ==_refl s.path,
    content-append_file s.path s.path frame d,
    length-append (content s.path d) frame,
    length-write_record payload frame h,
  )
