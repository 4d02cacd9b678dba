-- ===== src/Query/Executor/Complete.antt =====
-- What `Execute` of internal/query/executor.go finds: neither the index nor a bloom filter hides an
-- entry that the request asks for.
use distributed_log_query_en.Query.Executor.Reads.{read_segments_total, Reads, read_segments-All}
use distributed_log_query_en.Prelude.Int.{pos, less}
use distributed_log_query_en.Entries.Laws.{ids-All, contains-keep_dedup, contains-ids_sort}
use distributed_log_query_en.Entries.{ids}
use distributed_log_query_en.Prelude.Result.{ok}
use distributed_log_query_en.Query.Parser.{parse, Node}
use distributed_log_query_en.Query.Match.{matches, index_tokens}
use distributed_log_query_en.Prelude.PathSet.{contains, contains-keep}
use distributed_log_query_en.Query.Match.Prune.{
  bloom_definite_miss_sound, index_tokens-matches, uses_indexed_fields, HoldsEntry,
}
use distributed_log_query_en.Storage.Read.{read_segments, read_segment}
use distributed_log_query_en.Storage.Disk.{Disk}
use distributed_log_query_en.Storage.Manager.{bloom_for, Manager}
use distributed_log_query_en.Query.Executor.{
  execute, page, effective_limit, Context, read_candidates, at_read, at_parse, effective_limit,
  page, Context, at_parse, at_read, execute, read_candidates, candidate_paths, bloom_skips, passes,
  filter_sort,
}
use distributed_log_query_en.Storage.Bloom.{BloomLib}
use distributed_log_query_en.Prelude.Text.{Text, text_key}
use distributed_log_query_en.Prelude.{
  ap, All-keep, All-zip, keep-All, keep, Bool-cases, All-map, [], inr, inl, ◌∷◌, All, List, arith,
  Option, ◌≡◌, refl, true, false, none, some,
}
use distributed_log_query_en.Types.{LogEntry, QueryRequest, Codec}
use distributed_log_query_en.Index.{Index}
use distributed_log_query_en.Index.Coverage.{Covers, Meets, resolve-Covers}

-- The bloom filter of the segment, if it has one, holds the entry, and the query asks it only for
-- the fields that it holds.
abbrev pub Sound : (lib : BloomLib) → Option lib.Filter → Option Node → LogEntry → Type 0
Sound lib none ast e = Unit
Sound lib (some bf) none e = Unit
Sound lib (some bf) (some n) e = HoldsEntry lib bf e × (uses_indexed_fields n ≡ true)

passes-Meets :
    (req : QueryRequest) (ast : Option Node) (e : LogEntry)
    → passes req ast e ≡ true
    → Meets e (index_tokens ast) req.namespace req.service req.start_time req.end_time
unfolding passes
passes-Meets req ast e h = record {
  has_tokens = index_tokens-matches e ast (ground arith);
  has_namespace = ground arith;
  has_service = ground arith;
  from_start = ground arith;
  to_end = ground arith;
}

module _ (codec : Codec) (lib : BloomLib) where
  open lib use {Filter}

  Sound-keeps :
      (bf : Option Filter) (ast : Option Node) (e : LogEntry)
      → Sound lib bf ast e
      → matches e ast ≡ true
      → bloom_skips codec lib bf ast ≡ false
  unfolding bloom_skips matches
  Sound-keeps none ast e s m = refl
  Sound-keeps (some bf) none e s m = refl
  Sound-keeps (some bf) (some n) e (h, u) m = bloom_definite_miss_sound lib bf e n h u m

  contains-candidate_paths :
      (idx : Index) (m : Manager Filter) (d : Disk Filter) (req : QueryRequest) (ast : Option Node)
      (path : Text) (e : LogEntry)
      → Covers idx path e
      → Sound lib (bloom_for m path) ast e
      → passes req ast e ≡ true
      → contains (candidate_paths codec lib idx (m, d) req ast) path ≡ true
  unfolding candidate_paths
  contains-candidate_paths idx m d req ast path e c s h = rw contains-keep (
      ground (
        arith,
        resolve-Covers idx path e (index_tokens ast) req.namespace req.service req.start_time
            req.end_time c (passes-Meets req ast e h),
        Sound-keeps (bloom_for m path) ast e s (unfold passes in ground arith),
      ))

  found-All :
      (by_id : Text → LogEntry) (req : QueryRequest) (ast : Option Node) (raw es : List LogEntry)
      → All (λ e. e ≡ by_id e.id) raw
      → All
          (λ e. (passes req ast e ≡ true) × ((e ≡ by_id e.id) × (contains (ids raw) e.id ≡ true)))
          es
      → All (λ e. contains (ids (filter_sort req ast raw)) e.id ≡ true) es
  unfolding filter_sort contains
  found-All by_id req ast raw es all h =
      All-map _ (λ e. contains (ids (filter_sort req ast raw)) e.id ≡ true) es
        (λ e (p, (one, here)).
          rw contains-ids_sort
            (contains-keep_dedup by_id (passes req ast) [] raw e all one p here refl))
        h

  pub read_candidates-eq_ok :
      (ctx : Context) (m : Manager Filter) (d : Disk Filter) (paths : List Text)
      (raw : List LogEntry)
      → ctx.canceled_at_read ≡ false
      → read_segments codec d paths ≡ ok raw
      → read_candidates codec lib ctx (m, d) paths ≡ ok raw
  unfolding read_candidates at_read read_segments
  read_candidates-eq_ok ctx m d [] raw c h = ap at_read h
  read_candidates-eq_ok ctx m d (p ∷ ps) raw c h = rw (c, h) refl

  -- The entries of a covered segment that pass are found, when the segments are read.
  pub kept-All :
      (by_id : Text → LogEntry) (idx : Index) (m : Manager Filter) (d : Disk Filter)
      (req : QueryRequest) (ast : Option Node) (path : Text) (es raw : List LogEntry)
      → read_segments codec d (candidate_paths codec lib idx (m, d) req ast) ≡ ok raw
      → read_segment codec d path ≡ ok es
      → All (λ e. e ≡ by_id e.id) raw
      → All (λ e. e ≡ by_id e.id) es
      → All (λ e. Covers idx path e × Sound lib (bloom_for m path) ast e) es
      → All (λ e. contains (ids (filter_sort req ast raw)) e.id ≡ true) (keep (passes req ast) es)
  kept-All by_id idx m d req ast path es raw read here all these known =
      let kept = keep (passes req ast) es in
      let paths = candidate_paths codec lib idx (m, d) req ast in
      let pass = keep-All (passes req ast) es in
      elim (Bool-cases (contains paths path)) [
        | inl chosen ↦ found-All by_id req ast raw kept all (
            All-zip _ _ kept pass (
              All-zip _ _ kept (All-keep _ (passes req ast) es these) (
                All-keep _ (passes req ast) es (
                  read_segments-All codec (λ e. contains (ids raw) e.id ≡ true) d paths raw path es
                    read chosen here (ids-All raw)))))
        | inr pruned ↦
            All-map _ _ kept
              (λ e (p, (c, s)).
                absurd (cc (pruned, contains-candidate_paths idx m d req ast path e c s p)))
              (All-zip _ _ kept pass (All-keep _ (passes req ast) es known))
      ]

  -- A request whose limit and offset are not negative, whose query parses and which is not canceled
  -- gets a page of what the query finds, when every segment on the disk can be read or is gone and
  -- entries of one ID are one entry. Of every segment whose entries the index covers, what is found
  -- has each entry that passes, if its bloom filter is sound for the query.
  pub execute-finds :
      (by_id : Text → LogEntry) (idx : Index) (m : Manager Filter) (d : Disk Filter) (ctx : Context)
      (req : QueryRequest) (ast : Option Node) (path : Text) (es : List LogEntry)
      → less req.limit (pos 0) ≡ false
      → less req.offset (pos 0) ≡ false
      → ctx.canceled_at_start ≡ false
      → ctx.canceled_at_read ≡ false
      → parse req.query_string ≡ ok ast
      → ((p : Text) → Reads codec by_id d p)
      → read_segment codec d path ≡ ok es
      → All (λ e. e ≡ by_id e.id) es
      → All (λ e. Covers idx path e × Sound lib (bloom_for m path) ast e) es
      → (found : List LogEntry) × (execute codec lib idx (m, d) ctx req
          ≡ ok (page req.offset (effective_limit req.limit) found))
        × All (λ e. contains (ids found) e.id ≡ true) (keep (passes req ast) es)
  unfolding execute at_parse read_candidates page
  execute-finds by_id idx m d ctx req ast path es l o c1 c2 parsed reads here these known =
      let paths = candidate_paths codec lib idx (m, d) req ast in
      let (raw, read, all) = read_segments_total codec by_id d paths reads in
      (
        filter_sort req ast raw,
        rw (l, o, c1, parsed, read_candidates-eq_ok ctx m d paths raw c2 read) refl,
        kept-All by_id idx m d req ast path es raw read here all these known,
      )
