-- ===== src/Storage/Read.antt =====
-- internal/storage/read.go: reading whole segment files.
pub mod Frames
use distributed_log_query_en.Prelude.{ℕ, zero, suc, none, some, List, [], ◌∷◌, ◌++◌, length}
use distributed_log_query_en.Prelude.Text.{Text, text_key}
use distributed_log_query_en.Prelude.Dict.{get}
use distributed_log_query_en.Prelude.Result.{Result, ok, err, ◌>>=◌}
use distributed_log_query_en.Types.{Bytes, LogEntry, Codec}
use distributed_log_query_en.Storage.Disk.{Disk}
use distributed_log_query_en.Storage.Record.{RecordError, eof, read_record}

pub data ReadError : Type 0 where
  not_exist out_of_fuel bad_message : ReadError
  bad_record : RecordError → ReadError

unfoldable pub at_record_error : RecordError → Result ReadError (List LogEntry)
at_record_error eof = ok []
at_record_error r = err (bad_record r)

-- Missing paths are skipped; any other error ends the read.
unfoldable pub skip_missing :
    Result ReadError (List LogEntry)
    → Result ReadError (List LogEntry)
    → Result ReadError (List LogEntry)
skip_missing (ok es) rest = rest >>= λ all. ok (es ++ all)
skip_missing (err not_exist) rest = rest
skip_missing (err e) rest = err e

module _ (codec : Codec) where
  open codec use {marshal, unmarshal, unmarshal-marshal}

  -- The loop of `ReadSegment`. A record takes at least four bytes, so the length of the file is
  -- fuel enough.
  unfoldable pub read_entries : ℕ → Bytes → Result ReadError (List LogEntry)
  unfolding at_record_error
  read_entries zero _ = err out_of_fuel
  read_entries (suc fuel) stream = elim (read_record stream) [
    | err r ↦ at_record_error r
    | ok (payload, rest) ↦ elim (unmarshal payload) [
      | none ↦ err bad_message
      | some e ↦ read_entries fuel rest >>= λ es. ok (e ∷ es)
    ]
  ]

  module _ {Filter : Type 0} where
    unfoldable pub read_segment : Disk Filter → Text → Result ReadError (List LogEntry)
    unfolding read_entries
    read_segment d path = elim (get path d.segments) [
      | none ↦ err not_exist
      | some stream ↦ read_entries (suc (length stream)) stream
    ]

    unfoldable pub read_segments : Disk Filter → List Text → Result ReadError (List LogEntry)
    unfolding read_segment skip_missing
    read_segments d [] = ok []
    read_segments d (path ∷ paths) = skip_missing (read_segment d path) (read_segments d paths)
