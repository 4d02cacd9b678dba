-- ===== src/Node/Searchable.antt =====
-- What a node has to keep for its queries: the index and the bloom filters know what the segment
-- files of internal/storage/manager.go hold. It is kept by rotation.
use distributed_log_query_en.Storage.Read.Frames.{blank, read_entries-Holds, Holds}
use native.Mathlib.Nat.{mod-eq_of_lt}
use distributed_log_query_en.Storage.Manager.Append.{IsReady}
use mathlib.Core.Path.{subst}
use distributed_log_query_en.Storage.Segment.{open_segment, Segment}
use distributed_log_query_en.Index.Coverage.{Covers}
use distributed_log_query_en.Prelude.Result.{ok-injective, Result-cases, ok}
use distributed_log_query_en.Prelude.Dict.{get-put, get}
use distributed_log_query_en.Prelude.PathSet.{contains-append, contains}
use distributed_log_query_en.Query.Match.Prune.{HoldsEntry}
use distributed_log_query_en.Prelude.Text.{text_key, Text}
use distributed_log_query_en.Storage.Disk.{create_file, join_path, Disk}
use distributed_log_query_en.Storage.Manager.Write.{write_sidecar}
use distributed_log_query_en.Storage.Manager.{
  open_new_segment, segment_name, tokenize_entry, bloom_for, Store, tokenize_entries,
}
use distributed_log_query_en.Storage.Read.{read_segment}
use distributed_log_query_en.Index.{Index}
use distributed_log_query_en.Types.{Bytes, LogEntry, Codec}
use distributed_log_query_en.Storage.Bloom.{write_bloom, add_tokens-contains, build_bloom, BloomLib}
use distributed_log_query_en.Prelude.{
  suc, or_else, refl, All-zip, ◌+◌, ap, ◌∙◌, Bool-cases, length, sym, ◌==◌, ◌⊎◌, ◌^◌, ◌<◌, ◌≤◌, ltb,
  inr, if◌then◌else◌, arith, inl, true, none, All-map, ◌≡◌, ℕ, All, some, List, Option, [], ◌∷◌,
}

-- A segment's bloom filter, where there is one, holds the entry.
abbrev pub BloomHolds : (lib : BloomLib) → Option lib.Filter → LogEntry → Type 0
BloomHolds lib none e = Unit
BloomHolds lib (some bf) e = HoldsEntry lib bf e

module _ (codec : Codec) (lib : BloomLib) where
  open lib use {Filter}

  pub record IsSearchable (idx : Index) (st : Store Filter) : Type 0 where
    pub known :
        (p : Text) (es : List LogEntry)
        → contains st.0.paths p ≡ true
        → read_segment codec st.1 p ≡ ok es
        → All (λ e. Covers idx p e × BloomHolds lib (bloom_for st.0 p) e) es
    -- neither the active segment nor one to come has a filter
    pub plain : (seg : Segment) → st.0.active ≡ some seg → bloom_for st.0 seg.path ≡ none
    pub unused :
        (n : ℕ)
        → st.0.next_seq ≤ n
        → n < 10 ^ 20
        → bloom_for st.0 (join_path st.0.dir (segment_name n)) ≡ none

  -- Reading a segment looks at its file alone.
  pub read_segment-get :
      (d d' : Disk Filter) (p : Text)
      → get p d.segments ≡ get p d'.segments
      → read_segment codec d p ≡ read_segment codec d' p
  unfolding read_segment
  read_segment-get d d' p h = ground arith

  contains-tokenize_entries :
      (es : List LogEntry)
      → All
          (λ e.
            (tok : Text)
            → contains (tokenize_entry e) tok ≡ true
            → contains (tokenize_entries es) tok ≡ true)
          es
  unfolding tokenize_entries
  contains-tokenize_entries [] = tt
  contains-tokenize_entries (e ∷ es) = (
    λ tok h. ground (arith, contains-append (tokenize_entry e) (tokenize_entries es) tok),
    All-map _ _ es
        (λ x f tok h.
          ground (arith, contains-append (tokenize_entry e) (tokenize_entries es) tok, f tok h))
        (contains-tokenize_entries es),
  )

  -- The filter that rotation builds holds each entry of the closed segment.
  build_bloom-HoldsEntry :
      (es : List LogEntry) (n : ℕ)
      → All (HoldsEntry lib (build_bloom lib (tokenize_entries es) n)) es
  unfolding build_bloom
  build_bloom-HoldsEntry es n =
      All-map _ (HoldsEntry lib (build_bloom lib (tokenize_entries es) n)) es
        (λ e f tok h.
          add_tokens-contains lib (tokenize_entries es)
            (lib.new_with_estimates (if ltb n 100 then 100 else n)) tok (f tok h))
        (contains-tokenize_entries es)

  pub read_held :
      (d : Disk Filter) (p : Text) (stream : Bytes) (es : List LogEntry)
      → get p d.segments ≡ some stream
      → Holds codec stream es
      → read_segment codec d p ≡ ok es
  unfolding read_segment
  read_held d p stream es g h =
      rw (read_segment, g) (read_entries-Holds codec (suc (length stream)) h (omega arith))

  pub write_sidecar-segments :
      (closing : Text) (st : Store Filter)
      → (write_sidecar codec lib closing st).1.segments ≡ st.1.segments
  unfolding write_sidecar write_bloom
  write_sidecar-segments closing (m, d) =
      ground (arith, Result-cases (read_segment codec d closing))

  -- The filter of a path after the sidecar of the closing segment is written.
  pub write_sidecar-bloom :
      (closing p : Text) (st : Store Filter)
      → (bloom_for (write_sidecar codec lib closing st).0 p ≡ bloom_for st.0 p)
        ⊎ ((entries : List LogEntry) × ((closing == p) ≡ true)
            × (read_segment codec st.1 closing ≡ ok entries)
            × (bloom_for (write_sidecar codec lib closing st).0 p
                ≡ some (
                    build_bloom lib
                      (tokenize_entries entries)
                      (length (tokenize_entries entries)))))
  unfolding write_sidecar bloom_for
  write_sidecar-bloom closing p (m, d) = elim (Bool-cases m.bloom_enabled) [
    | inr off ↦ rw off (inl refl)
    | inl on ↦ elim (Result-cases (read_segment codec d closing)) [
      | inr (r, e) ↦ rw (on, e) (inl refl)
      | inl (entries, e) ↦ elim (Bool-cases (closing == p)) [
        | inr ne ↦ rw (on, e, get-put, ne) (inl refl)
        | inl here ↦ rw (on, e, get-put, here) (inr (entries, refl, refl, refl))
      ]
    ]
  ]

  pub write_sidecar-known :
      (closing : Text) (idx : Index) (st : Store Filter)
      → IsSearchable idx st
      → (p : Text) (es : List LogEntry) → contains st.0.paths p ≡ true
      → read_segment codec st.1 p ≡ ok es
      → All
          (λ e.
            Covers idx p e × BloomHolds lib (bloom_for (write_sidecar codec lib closing st).0 p) e)
          es
  write_sidecar-known closing idx st h p es listed reads =
      let old = h.known p es listed reads in
      elim (write_sidecar-bloom closing p st) [
        | inl same ↦ subst (λ o. All (λ e. Covers idx p e × BloomHolds lib o e) es) (sym same) old
        | inr (entries, here, read, built) ↦
            let toks = tokenize_entries entries in
            let same : entries ≡ es = ok-injective entries es (
              sym read
              ∙ ap (read_segment codec st.1) ((text_key.eqb_iff closing p).0 here)
              ∙ reads) in
            let held =
              subst (All (HoldsEntry lib (build_bloom lib toks (length toks)))) same
                (build_bloom-HoldsEntry entries (length toks)) in
            subst (λ o. All (λ e. Covers idx p e × BloomHolds lib o e) es) (sym built)
              (All-zip (Covers idx p) (HoldsEntry lib (build_bloom lib toks (length toks))) es
                (All-map _ (Covers idx p) es (λ e c. c.0) old) held)
      ]

  -- Opening a segment under a number that is not used yet.
  pub open_new_segment-IsSearchable :
      (idx : Index) (st : Store Filter) (all : List LogEntry)
      → IsReady codec st all
      → st.0.next_seq + 1 < 2 ^ 64
      → ((p : Text) (es : List LogEntry)
          → contains st.0.paths p ≡ true
          → read_segment codec st.1 p ≡ ok es
          → All (λ e. Covers idx p e × BloomHolds lib (bloom_for st.0 p) e) es)
      → ((n : ℕ)
          → st.0.next_seq ≤ n
          → n < 10 ^ 20
          → bloom_for st.0 (join_path st.0.dir (segment_name n)) ≡ none)
      → IsSearchable idx (open_new_segment st)
  unfolding open_new_segment open_segment create_file bloom_for contains
  open_new_segment-IsSearchable idx (m, d) all r room known unused =
      let path = join_path m.dir (segment_name m.next_seq) in
      let absent = r.unused m.next_seq (omega arith) (omega arith) in
      let opened = open_new_segment (m, d) in
      let written = λ (p : Text). get-put path p (or_else (get path d.segments) []) d.segments in
      let next = mod-eq_of_lt {n = m.next_seq + 1} {m = 2 ^ 64} (omega arith) in
      record {
        known = λ p es listed reads. elim (Bool-cases (path == p)) [
          | inl here ↦
              let g : get p opened.1.segments ≡ some [] = ground (arith, written p, absent) in
              let blank_read : read_segment codec opened.1 p ≡ ok [] =
                read_held opened.1 p [] [] g blank in
              subst (All (λ e. Covers idx p e × BloomHolds lib (bloom_for m p) e))
                (ok-injective [] es (sym blank_read ∙ reads)) tt
          | inr other ↦
              let g : get p opened.1.segments ≡ get p d.segments = ground (arith, written p) in
              known p es (ground (arith, contains-append m.paths (path ∷ []) p))
                (sym (read_segment-get opened.1 d p g) ∙ reads)
        ];
        plain = λ seg e.
            ap (λ o. bloom_for m (or_else o (open_segment path d).0).path) (sym e)
            ∙ unused m.next_seq (omega arith) (omega arith);
        unused = λ n above small. unused n (omega (arith, next)) small;
      }
