-- ===== src/Storage/Read/Frames.antt =====
-- A segment file is the frames of its entries, one behind the other.
use mathlib.Core.List.{append_assoc, append-nil}
use distributed_log_query_en.Prelude.{
  ℕ, zero, suc, ◌+◌, ◌*◌, ◌^◌, ◌<◌, ◌≤◌, ◌≡◌, ◌≢◌, refl, some, List, [], ◌∷◌, ◌++◌, arith, length,
  length-append, length-drop, ap, inl, inr, sym,
}
use distributed_log_query_en.Prelude.Result.{ok, err, Result-cases}
use distributed_log_query_en.Types.{Bytes, LogEntry, Codec}
use distributed_log_query_en.Storage.Record.{
  read_record, write_record, max_record_size, read_record-write_record, eof, truncated_length,
  payload_overflows, too_large, truncated_data,
}
use distributed_log_query_en.Storage.Segment.{length-write_record}
use distributed_log_query_en.Storage.Read.{out_of_fuel, read_entries}

-- What is left after a record is shorter than what it was read from.
pub read_record_shrinks :
    (stream payload rest : Bytes)
    → read_record stream ≡ ok (payload, rest)
    → length rest < length stream
unfolding read_record
read_record_shrinks (a ∷ b ∷ c ∷ d ∷ s) payload rest h =
    ground (arith, length-drop (a * 2 ^ 24 + b * 2 ^ 16 + c * 2 ^ 8 + d) s)
read_record_shrinks [] payload rest h = ground arith
read_record_shrinks (a ∷ []) payload rest h = ground arith
read_record_shrinks (a ∷ b ∷ []) payload rest h = ground arith
read_record_shrinks (a ∷ b ∷ c ∷ []) payload rest h = ground arith

module _ (codec : Codec) where
  open codec use {marshal, unmarshal, unmarshal-marshal}

  pub record IsFrame (e : LogEntry) (frame : Bytes) : Type 0 where
    pub payload : Bytes
    pub marshalled : marshal e ≡ some payload
    pub small : length payload ≤ max_record_size
    pub written : write_record payload ≡ ok frame

  pub data Holds : Bytes → List LogEntry → Type 0 where
    blank : Holds [] []
    framed :
        {stream frame rest : Bytes} {e : LogEntry} {es : List LogEntry}
        → IsFrame e frame
        → stream ≡ frame ++ rest
        → Holds rest es
        → Holds stream (e ∷ es)

  -- A file that holds the frames of `es` is read back as `es`.
  pub read_entries-Holds :
      (fuel : ℕ) {stream : Bytes} {es : List LogEntry}
      → Holds stream es
      → length stream < fuel
      → read_entries codec fuel stream ≡ ok es
  unfolding read_entries
  read_entries-Holds zero h lt = absurd (omega arith)
  read_entries-Holds (suc fuel) blank lt = unfold read_record in refl
  read_entries-Holds (suc fuel) (framed {frame = frame} {rest = rest} {e = e} f p h) lt =
      let longer = length-append frame rest in
      let counted = length-write_record f.payload frame f.written in
      rw (
        p,
        read_entries,
        read_record-write_record f.payload rest frame f.small f.written,
        unmarshal-marshal e f.payload f.marshalled,
        read_entries-Holds fuel h (ground (arith, longer, counted, ap (λ s. length s) p)),
      )

  -- One more frame at the end is one more entry at the end.
  pub Holds-append :
      {stream frame : Bytes} {e : LogEntry} {es : List LogEntry}
      → Holds stream es
      → IsFrame e frame
      → Holds (stream ++ frame) (es ++ e ∷ [])
  Holds-append blank f = framed f (sym (append-nil _)) blank
  Holds-append {frame = frame} (framed f p h) g = framed f (rw (p, append_assoc)) (Holds-append h g)

  -- Fuel that is more than the length of the file is enough, whatever the file holds.
  pub read_entries_ends :
      (fuel : ℕ) (stream : Bytes)
      → length stream < fuel
      → read_entries codec fuel stream ≢ err out_of_fuel
  unfolding read_entries
  read_entries_ends zero stream lt = absurd (omega arith)
  read_entries_ends (suc fuel) stream lt = elim (Result-cases (read_record stream)) [
    | inr (eof, e) ↦ rw (e, read_entries) (λ h. cc)
    | inr (truncated_length, e) ↦ rw (e, read_entries) (λ h. cc)
    | inr (payload_overflows n, e) ↦ rw (e, read_entries) (λ h. cc)
    | inr (too_large n, e) ↦ rw (e, read_entries) (λ h. cc)
    | inr (truncated_data n, e) ↦ rw (e, read_entries) (λ h. cc)
    | inl ((payload, rest), e) ↦
        let ih =
          read_entries_ends fuel rest (omega (arith, read_record_shrinks stream payload rest e)) in
        rw (e, read_entries) (λ h. ground (arith, ih))
  ]
