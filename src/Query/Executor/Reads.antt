-- ===== src/Query/Executor/Reads.antt =====
-- Reading the segments of a query, internal/query/executor.go over internal/storage/read.go, where
-- every segment on the disk can be read.
use mathlib.Core.Path.{subst}
use distributed_log_query_en.Prelude.Result.{ok-injective, Result, ok, err}
use distributed_log_query_en.Prelude.PathSet.{contains}
use distributed_log_query_en.Storage.Read.{
  ReadError, read_segments, not_exist, read_segment, skip_missing,
}
use distributed_log_query_en.Storage.Disk.{Disk}
use distributed_log_query_en.Prelude.Text.{Text, text_key}
use distributed_log_query_en.Prelude.{
  ◌∙◌, sym, Bool-cases, All-split, ◌==◌, [], All-append, ◌++◌, inr, inl, ◌∷◌, All, List, ◌⊎◌, arith,
  ◌≡◌, refl, true,
}
use distributed_log_query_en.Types.{LogEntry, Codec}

skip_missing-eq-ok :
    (a b : Result ReadError (List LogEntry)) (raw : List LogEntry)
    → skip_missing a b ≡ ok raw
    → ((a ≡ err not_exist) × (b ≡ ok raw))
      ⊎ ((es : List LogEntry) × (rest : List LogEntry) × (a ≡ ok es)
          × (b ≡ ok rest)
          × (raw ≡ es ++ rest))
unfolding skip_missing
skip_missing-eq-ok (ok es) (ok rest) raw h = inr (es, rest, refl, refl, cc h)
skip_missing-eq-ok (ok es) (err e) raw h = cc h
skip_missing-eq-ok (err not_exist) b raw h = inl (refl, h)
skip_missing-eq-ok (err _) b raw h = cc h

module _ (codec : Codec) {Filter : Type 0} where
  -- A path that is read gives entries, each the one entry of its ID, or there is no such file.
  abbrev pub Reads : (Text → LogEntry) → Disk Filter → Text → Type 0
  Reads by_id d p =
      (read_segment codec d p ≡ err not_exist)
      ⊎ ((es : List LogEntry) × (read_segment codec d p ≡ ok es) × All (λ e. e ≡ by_id e.id) es)

  -- Segments that can be read are read, and every entry of each is among what was read.
  pub read_segments_total :
      (by_id : Text → LogEntry) (d : Disk Filter) (paths : List Text)
      → ((p : Text) → Reads by_id d p)
      → (raw : List LogEntry) × (read_segments codec d paths ≡ ok raw)
        × All (λ e. e ≡ by_id e.id) raw
  unfolding read_segments skip_missing
  read_segments_total by_id d [] r = ([], refl, tt)
  read_segments_total by_id d (p ∷ ps) r =
      let (rest, read, all) = read_segments_total by_id d ps r in
      elim (r p) [
        | inl gone ↦ (rest, rw (gone, read, read_segments) refl, all)
        | inr (es, here, these) ↦ (
          es ++ rest,
          rw (here, read, read_segments) refl,
          All-append (λ e. e ≡ by_id e.id) es rest these all,
        )
      ]

  same_segment :
      (d : Disk Filter) (p path : Text) (es : List LogEntry)
      → (p == path) ≡ true
      → read_segment codec d path ≡ ok es
      → read_segment codec d p ≡ ok es
  same_segment d p path es e r = rw ((text_key.eqb_iff p path).0 e) r

  pub read_segments-All :
      (P : LogEntry → Type 0) (d : Disk Filter) (paths : List Text) (raw : List LogEntry)
      (path : Text) (es : List LogEntry)
      → read_segments codec d paths ≡ ok raw
      → contains paths path ≡ true
      → read_segment codec d path ≡ ok es
      → All P raw
      → All P es
  unfolding contains read_segments
  read_segments-All P d [] raw path es h c r all = cc
  read_segments-All P d (p ∷ ps) raw path es h c r all =
      elim (skip_missing-eq-ok (read_segment codec d p) (read_segments codec d ps) raw h) [
        | inl (gone, read) ↦
            read_segments-All P d ps raw path es read
              (ground (arith, text_key.eqb_iff p path, gone, same_segment d p path es)) r all
        | inr (fst, rest, here, read, split) ↦
            let both = All-split P fst rest (subst (All P) split all) in
            elim (Bool-cases (p == path)) [
              | inl eq ↦
                  subst (All P) (ok-injective fst es (sym here ∙ same_segment d p path es eq r))
                    both.0
              | inr ne ↦ read_segments-All P d ps rest path es read (ground arith) r both.1
            ]
      ]
