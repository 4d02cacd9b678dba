-- ===== src/Storage/Manager/Append.antt =====
-- Appends of internal/storage/manager.go against what a later read of all segments returns.
use native.Mathlib.Nat.{mod-eq_of_lt}
use distributed_log_query_en.Prelude.{
  ℕ, ◌+◌, ◌^◌, ◌<◌, ◌≤◌, ◌≡◌, refl, inl, inr, false, none, some, List, [], ◌∷◌, ◌++◌, arith, length,
  last?, init, last?-snoc, init-snoc, ltb, Bool-cases, ==_refl, ==_ne, or_else,
}
use distributed_log_query_en.Prelude.Text.{Text, text_key}
use distributed_log_query_en.Prelude.Dict.{get, get-put}
use distributed_log_query_en.Prelude.PathSet.{contains-last?, contains}
use distributed_log_query_en.Prelude.Result.{Result-cases, ok}
use distributed_log_query_en.Types.{LogEntry, Codec, Bytes}
use distributed_log_query_en.Storage.Disk.{append_file, join_path}
use distributed_log_query_en.Storage.Bloom.{BloomLib, write_bloom}
use distributed_log_query_en.Storage.Segment.{
  Segment, IsSized, open_segment, append_eq, append-IsSized, open_segment-IsSized,
}
use distributed_log_query_en.Storage.Read.{read_segment, read_segments}
use distributed_log_query_en.Storage.Read.Frames.{IsFrame}
use distributed_log_query_en.Storage.Manager.{Store, open_new_segment, segment_name}
use distributed_log_query_en.Storage.Manager.Write.{
  write_sidecar, rotate, append_active, append_payload, append_locked,
}
use distributed_log_query_en.Storage.Manager.Names.{segment_path-injective}
use distributed_log_query_en.Storage.Manager.Stored.{
  Stored, Stored-on_disk, Stored-put, Stored-append_last, Stored-snoc, read_segments-Stored,
}

module _ (codec : Codec) {Filter : Type 0} where
  -- The files of the path list, and no file yet under a sequence number to come.
  pub record IsReady (st : Store Filter) (all : List LogEntry) : Type 0 where
    pub stored : Stored codec st.1.segments st.0.paths all
    pub unused :
        (n : ℕ)
        → st.0.next_seq ≤ n
        → n < 10 ^ 20
        → get (join_path st.0.dir (segment_name n)) st.1.segments ≡ none

  -- An open manager whose segments hold the entries `all`: the active segment is the last path and
  -- no other, and its size is right.
  pub record IsOpen (st : Store Filter) (all : List LogEntry) : Type 0 where
    pub ready : IsReady st all
    pub seg : Segment
    pub active : st.0.active ≡ some seg
    pub last : last? st.0.paths ≡ some seg.path
    pub distinct : contains (init st.0.paths) seg.path ≡ false
    pub sized : IsSized seg st.1

  pub open_new_segment-IsOpen :
      (st : Store Filter) (all : List LogEntry)
      → IsReady st all
      → st.0.next_seq + 1 < 2 ^ 64
      → IsOpen (open_new_segment st) all
  unfolding open_new_segment open_segment
  open_new_segment-IsOpen (m, d) all r room =
      let path = join_path m.dir (segment_name m.next_seq) in
      let absent = r.unused m.next_seq (omega arith) (omega arith) in
      let fresh = Stored-on_disk codec path r.stored absent in
      record {
        ready = record {
          stored =
              Stored-snoc codec path
                (Stored-put codec path (or_else (get path d.segments) []) r.stored fresh)
                (ground (
                  arith,
                  get-put path path (or_else (get path d.segments) []) d.segments,
                  ==_refl path,
                  absent,
                ));
          unused = λ n above small.
              let next = mod-eq_of_lt room in
              let later : m.next_seq < n = omega (arith, next) in
              let other = join_path m.dir (segment_name n) in
              let apart = ==_ne path other λ e.
                absurd (
                  omega (arith, segment_path-injective m.dir m.next_seq n (omega arith) small e)) in
              ground (
                arith,
                get-put path other (or_else (get path d.segments) []) d.segments,
                apart,
                r.unused n (omega arith) small,
              );
        };
        seg = (open_segment path d).0;
        active = refl;
        last = last?-snoc m.paths path;
        distinct = rw init-snoc fresh;
        sized = open_segment-IsSized path d;
      }

module _ (codec : Codec) (lib : BloomLib) where
  open codec use {marshal}
  open lib use {Filter}

  -- A bloom sidecar touches neither the segment files nor their list.
  pub write_sidecar-IsReady :
      (closing : Text) (st : Store Filter) (all : List LogEntry)
      → IsReady codec st all
      → IsReady codec (write_sidecar codec lib closing st) all
        × ((write_sidecar codec lib closing st).0.next_seq ≡ st.0.next_seq)
  unfolding write_sidecar write_bloom
  write_sidecar-IsReady closing (m, d) all h = elim (Bool-cases m.bloom_enabled) [
    | inr off ↦ rw off (record { stored = h.stored; unused = h.unused }, refl)
    | inl on ↦ elim (Result-cases (read_segment codec d closing)) [
      | inl (entries, e) ↦ rw (on, e) (record { stored = h.stored; unused = h.unused }, refl)
      | inr (r, e) ↦ rw (on, e) (record { stored = h.stored; unused = h.unused }, refl)
    ]
  ]

  pub rotate-IsOpen :
      (st : Store Filter) (all : List LogEntry)
      → IsOpen codec st all
      → st.0.next_seq + 1 < 2 ^ 64
      → (st' : Store Filter) × (rotate codec lib st ≡ ok st') × IsOpen codec st' all
  unfolding rotate
  rotate-IsOpen st all h room =
      let (ready, same) = write_sidecar-IsReady h.seg.path st all h.ready in
      (
        open_new_segment (write_sidecar codec lib h.seg.path st),
        rw (h.last, rotate),
        open_new_segment-IsOpen codec _ all ready (omega (arith, same)),
      )

  pub append_active-IsOpen :
      (st : Store Filter) (all : List LogEntry) (e : LogEntry) (frame : Bytes)
      → IsOpen codec st all
      → (f : IsFrame codec e frame)
      → (st' : Store Filter) × (append_active codec lib f.payload st ≡ ok st')
        × IsOpen codec st' (all ++ e ∷ [])
  unfolding append_active append_file
  append_active-IsOpen (m, d) all e frame h f =
      let seg' : Segment = record {
        path = h.seg.path;
        size = h.seg.size + (4 + length f.payload);
      } in
      (
        (record m { active = some seg' }, append_file h.seg.path frame d),
        rw (h.active, append_eq h.seg f.payload frame d f.written),
        record {
          ready = record {
            stored = Stored-append_last codec h.seg.path h.ready.stored h.last h.distinct f;
            unused = λ n above small.
                let other = join_path m.dir (segment_name n) in
                let absent = h.ready.unused n above small in
                ground (
                  arith,
                  get-put h.seg.path other (or_else (get h.seg.path d.segments) [] ++ frame)
                      d.segments,
                  text_key.eqb_iff h.seg.path other,
                  Stored-on_disk codec other h.ready.stored absent,
                  contains-last? m.paths h.seg.path h.last,
                  absent,
                );
          };
          seg = seg';
          active = refl;
          last = h.last;
          distinct = h.distinct;
          sized = append-IsSized h.seg f.payload frame d h.sized f.written;
        },
      )

  -- On an open manager whose segments hold the entries `all`, an append of an entry that marshals to
  -- at most 64 MiB succeeds, whether or not it rotates, while sequence numbers are left; the manager
  -- is open again, and its segments hold the old entries in their order and the new one at the end.
  pub append_locked-IsOpen :
      (st : Store Filter) (all : List LogEntry) (e : LogEntry) (frame : Bytes)
      → IsOpen codec st all
      → IsFrame codec e frame
      → st.0.next_seq + 1 < 2 ^ 64
      → (st' : Store Filter) × (append_locked codec lib e st ≡ ok st')
        × IsOpen codec st' (all ++ e ∷ [])
        × (read_segments codec st'.1 st'.0.paths ≡ ok (all ++ e ∷ []))
  unfolding append_locked append_payload
  append_locked-IsOpen (m, d) all e frame h f room =
      elim (Bool-cases (ltb m.max_segment_bytes (h.seg.size + (4 + length f.payload)))) [
        | inl full ↦
            let (st1, rotated, open1) = rotate-IsOpen (m, d) all h room in
            let (st2, wrote, open2) = append_active-IsOpen st1 all e frame open1 f in
            (
              st2,
              rw (h.active, f.marshalled, full, rotated) wrote,
              open2,
              read_segments-Stored codec st2.1 open2.ready.stored,
            )
        | inr fits ↦
            let (st2, wrote, open2) = append_active-IsOpen (m, d) all e frame h f in
            (
              st2,
              rw (h.active, f.marshalled, fits) wrote,
              open2,
              read_segments-Stored codec st2.1 open2.ready.stored,
            )
      ]
