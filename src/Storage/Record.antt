-- ===== src/Storage/Record.antt =====
-- internal/storage/record.go: length-prefixed records.
use distributed_log_query_en.Prelude.{
  ℕ, ◌+◌, ◌*◌, ◌/◌, ◌%◌, ◌^◌, ◌-◌, ◌≤◌, ◌<◌, ◌≡◌, [], ◌∷◌, ◌++◌, arith, ltb, length, take, drop,
  take-length_append, drop-length_append, length-append, if◌then◌else◌,
}
use mathlib.Core.List.{append_assoc}
use distributed_log_query_en.Prelude.Result.{Result, ok, err}
use distributed_log_query_en.Types.{Bytes}

pub data RecordError : Type 0 where
  eof truncated_length : RecordError
  payload_overflows too_large truncated_data : ℕ → RecordError

-- binary.BigEndian on a uint32
unfoldable pub put_uint32 : ℕ → Bytes
put_uint32 n = n / 2 ^ 24 % 256 ∷ n / 2 ^ 16 % 256 ∷ n / 2 ^ 8 % 256 ∷ n % 256 ∷ []

abbrev pub get_uint32 : ℕ → ℕ → ℕ → ℕ → ℕ
get_uint32 a b c d = a * 2 ^ 24 + b * 2 ^ 16 + c * 2 ^ 8 + d

abbrev pub max_uint32 : ℕ
max_uint32 = 2 ^ 32 - 1

-- 64 MiB
abbrev pub max_record_size : ℕ
max_record_size = 64 * 1024 * 1024

-- What the writer receives.
unfoldable pub write_record : Bytes → Result RecordError Bytes
unfolding put_uint32
write_record payload =
    if ltb max_uint32 (length payload)
    then err (payload_overflows (length payload))
    else ok (put_uint32 (length payload) ++ payload)

-- The record at the front of the stream, and the rest of the stream.
unfoldable pub read_record : Bytes → Result RecordError (Bytes × Bytes)
read_record [] = err eof
read_record (a ∷ b ∷ c ∷ d ∷ rest) =
    let n = get_uint32 a b c d in
    if ltb max_record_size n
    then err (too_large n)
    else if ltb (length rest) n
    then err (truncated_data n)
    else ok (take n rest, drop n rest)
read_record _ = err truncated_length

pub get_uint32-put :
    (n : ℕ)
    → n ≤ max_uint32
    → get_uint32 (n / 2 ^ 24 % 256) (n / 2 ^ 16 % 256) (n / 2 ^ 8 % 256) (n % 256) ≡ n
get_uint32-put n h = omega arith

read_frame :
    (payload rest : Bytes)
    → length payload ≤ max_record_size
    → read_record (put_uint32 (length payload) ++ payload ++ rest) ≡ ok (payload, rest)
unfolding put_uint32 read_record
read_frame payload rest small = rw (get_uint32-put (length payload) (omega arith)) (
    ground (
      arith,
      length-append payload rest,
      take-length_append payload rest,
      drop-length_append payload rest,
    ))

-- What `WriteRecord` wrote of a payload of at most 64 MiB, `ReadRecord` reads back, and it leaves
-- exactly what follows the record.
pub read_record-write_record :
    (payload rest frame : Bytes)
    → length payload ≤ max_record_size
    → write_record payload ≡ ok frame
    → read_record (frame ++ rest) ≡ ok (payload, rest)
unfolding write_record
read_record-write_record payload rest frame small written =
    let e : put_uint32 (length payload) ++ payload ≡ frame = ground arith in
    rw (← e, append_assoc) (read_frame payload rest small)

-- A payload of more than 64 MiB that fits the length prefix is written, and is refused when read.
pub read_record_too_large :
    (payload rest : Bytes)
    → max_record_size < length payload
    → length payload ≤ max_uint32
    → (frame : Bytes) × (write_record payload ≡ ok frame)
      × (read_record (frame ++ rest) ≡ err (too_large (length payload)))
unfolding write_record read_record
read_record_too_large payload rest large fits = (
  put_uint32 (length payload) ++ payload,
  ground arith,
  rw (get_uint32-put (length payload) fits) (ground arith),
)
