-- ===== src/Node/Answers.antt =====
-- What a query of internal/query/executor.go finds on a node that takes writes.
use distributed_log_query_en.Node.Appended.{handle_ingest-IsSearchable}
use distributed_log_query_en.Storage.Read.Frames.{IsFrame}
use distributed_log_query_en.Index.Coverage.{Covers}
use mathlib.Core.Path.{subst}
use distributed_log_query_en.Entries.{ids}
use distributed_log_query_en.Storage.Manager.Stored.{no_files, file, Stored}
use distributed_log_query_en.Prelude.Int.{pos, less}
use distributed_log_query_en.Prelude.Result.{ok-injective, ok}
use distributed_log_query_en.Query.Executor.Reads.{read_segments_total, Reads}
use distributed_log_query_en.Storage.Read.{read_segments}
use distributed_log_query_en.Ingest.Orchestrator.Laws.{Owns, IsServing}
use distributed_log_query_en.Storage.Disk.{Disk}
use distributed_log_query_en.Storage.Manager.{bloom_for, Manager}
use distributed_log_query_en.Ingest.Orchestrator.{
  handle_ingest, received, IngestResponse, Arrival, Peers, Orchestrator,
}
use distributed_log_query_en.Index.{Index}
use distributed_log_query_en.Query.Executor.Complete.{kept-All, read_candidates-eq_ok, Sound}
use distributed_log_query_en.Prelude.Text.{text_key, Text}
use distributed_log_query_en.Node.Searchable.{read_held, IsSearchable, BloomHolds}
use distributed_log_query_en.Query.Match.Prune.{uses_indexed_fields}
use distributed_log_query_en.Query.Executor.{
  read_candidates, effective_limit, page, passes, filter_sort, candidate_paths, Context, at_parse,
}
use distributed_log_query_en.Query.Parser.{parse, Node}
use distributed_log_query_en.Query.Executor.{execute}
use distributed_log_query_en.Prelude.PathSet.{contains}
use distributed_log_query_en.Types.{Bytes, QueryRequest, LogEntry, Codec}
use distributed_log_query_en.Storage.Bloom.{BloomLib}
use distributed_log_query_en.Prelude.{
  Bool, ap, ◌∙◌, sym, ◌++◌, ◌^◌, ◌<◌, ◌+◌, ◌≢◌, refl, All-append, keep-append, ==_refl, arith,
  All-map, All-split, false, All, List, true, ◌≡◌, keep, some, none, Option, [], ◌∷◌,
}

-- The query asks a bloom filter only for what the filters hold.
abbrev pub AsksIndexed : Option Node → Type 0
AsksIndexed none = Unit
AsksIndexed (some n) = uses_indexed_fields n ≡ true

BloomHolds-Sound :
    (lib : BloomLib) (bf : Option lib.Filter) (ast : Option Node) (e : LogEntry)
    → BloomHolds lib bf e
    → AsksIndexed ast
    → Sound lib bf ast e
BloomHolds-Sound lib none ast e h a = tt
BloomHolds-Sound lib (some bf) none e h a = tt
BloomHolds-Sound lib (some bf) (some n) e h a = (h, a)

kept_last :
    (P : LogEntry → Type 0) (p : LogEntry → Bool) (all : List LogEntry) (e : LogEntry)
    → p e ≡ true
    → All P (keep p (all ++ e ∷ []))
    → P e
unfolding keep
kept_last P p all e passed h =
    let split = subst (All P) (keep-append p all (e ∷ [])) h in
    (rw passed at ((All-split P (keep p all) (keep p (e ∷ [])) split).1)).0

module _ (codec : Codec) (lib : BloomLib) where
  open lib use {Filter}

  -- Along the files of the path list.
  Stored-found :
      (by_id : Text → LogEntry) (idx : Index) (m : Manager Filter) (d : Disk Filter)
      (req : QueryRequest) (ast : Option Node) (raw : List LogEntry) {paths : List Text}
      {all : List LogEntry}
      → IsSearchable codec lib idx (m, d)
      → AsksIndexed ast
      → read_segments codec d (candidate_paths codec lib idx (m, d) req ast) ≡ ok raw
      → All (λ e. e ≡ by_id e.id) raw
      → Stored codec d.segments paths all
      → ((p : Text) → contains paths p ≡ true → contains m.paths p ≡ true)
      → All (λ e. e ≡ by_id e.id) all
      → All (λ e. contains (ids (filter_sort req ast raw)) e.id ≡ true) (keep (passes req ast) all)
  unfolding contains keep
  Stored-found by_id idx m d req ast raw h a read one no_files inside these = tt
  Stored-found by_id idx m d req ast raw h a read one
        (file {path = path} {paths = paths} {stream = stream} {es = es} {rest = rest} g held s
          split)
        inside these =
      let (mine, others) =
        All-split (λ e. e ≡ by_id e.id) es rest (subst (All (λ e. e ≡ by_id e.id)) split these) in
      let here = read_held codec lib d path stream es g held in
      let known =
        All-map _ (λ e. Covers idx path e × Sound lib (bloom_for m path) ast e) es
          (λ e (c, b). (c, BloomHolds-Sound lib (bloom_for m path) ast e b a))
          (h.known path es (inside path (ground (arith, ==_refl path))) here) in
      let first = kept-All codec lib by_id idx m d req ast path es raw read here one mine known in
      let later =
        Stored-found by_id idx m d req ast raw h a read one s (λ p c. inside p (ground arith))
          others in
      rw (split, keep-append)
        (All-append _ (keep (passes req ast) es) (keep (passes req ast) rest) first later)

  -- A request whose limit and offset are not negative, whose query parses, asks for indexed fields
  -- alone and is not canceled, on a searchable node that serves the entries `all`, of which those of
  -- one ID are one entry, and all of whose files can be read: it is answered with a page of what it
  -- finds, and it finds each of the entries that pass, whatever segment they are in.
  pub execute-finds_all :
      (by_id : Text → LogEntry) (o : Orchestrator Filter) (all : List LogEntry) (ctx : Context)
      (req : QueryRequest) (ast : Option Node)
      → IsServing codec o all
      → IsSearchable codec lib o.idx o.store
      → All (λ e. e ≡ by_id e.id) all
      → ((p : Text) → Reads codec by_id o.store.1 p)
      → less req.limit (pos 0) ≡ false
      → less req.offset (pos 0) ≡ false
      → ctx.canceled_at_start ≡ false
      → ctx.canceled_at_read ≡ false
      → parse req.query_string ≡ ok ast
      → AsksIndexed ast
      → (found : List LogEntry) × (execute codec lib o.idx o.store ctx req
          ≡ ok (page req.offset (effective_limit req.limit) found))
        × All (λ e. contains (ids found) e.id ≡ true) (keep (passes req ast) all)
  unfolding execute at_parse read_candidates page
  execute-finds_all by_id o all ctx req ast s h one reads l off c1 c2 parsed a =
      let (m, d) = o.store in
      let paths = candidate_paths codec lib o.idx (m, d) req ast in
      let (raw, read, ones) = read_segments_total codec by_id d paths reads in
      (
        filter_sort req ast raw,
        rw (execute, l, off, c1, parsed, read_candidates-eq_ok codec lib ctx m d paths raw c2 read)
            refl,
        Stored-found by_id o.idx m d req ast raw h a read ones s.stored.ready.stored (λ p c. c) one,
      )

  -- A client that was told that its entry was taken finds it: on the node that a write left behind, a
  -- request that the stored entry passes, whose limit and offset are not negative, whose query parses,
  -- asks for indexed fields alone and is not canceled, is answered with a page of what it finds, and
  -- the ID of the answer to the write is among that. The node has to serve, be searchable and own the entry's
  -- shard at the time of the write, the stored entry has to marshal to at most 64 MiB, sequence numbers
  -- have to be left, entries of one ID have to be one entry, and all files have to be readable.
  pub handle_ingest-found :
      (by_id : Text → LogEntry) (peers : Peers) (a : Arrival) (pb : LogEntry)
      (o o' : Orchestrator Filter) (all : List LogEntry) (frame : Bytes) (resp : IngestResponse)
      (ctx : Context) (req : QueryRequest) (ast : Option Node)
      → IsServing codec o all
      → IsSearchable codec lib o.idx o.store
      → pb.service ≢ []
      → pb.message ≢ []
      → Owns o pb
      → IsFrame codec (received a pb) frame
      → o.store.0.next_seq + 1 < 2 ^ 64
      → handle_ingest codec lib peers a (record { entry = some pb }) o ≡ (ok resp, o')
      → All (λ e. e ≡ by_id e.id) (all ++ received a pb ∷ [])
      → ((p : Text) → Reads codec by_id o'.store.1 p)
      → less req.limit (pos 0) ≡ false
      → less req.offset (pos 0) ≡ false
      → ctx.canceled_at_start ≡ false
      → ctx.canceled_at_read ≡ false
      → parse req.query_string ≡ ok ast
      → AsksIndexed ast
      → passes req ast (received a pb) ≡ true
      → (found : List LogEntry) × (execute codec lib o'.idx o'.store ctx req
          ≡ ok (page req.offset (effective_limit req.limit) found))
        × (contains (ids found) resp.id ≡ true)
  handle_ingest-found by_id peers a pb o o' all frame resp ctx req ast s h service message owns f
        room answered one reads l off c1 c2 parsed asks passed =
      let (o1, took, serving, searchable) =
        handle_ingest-IsSearchable codec lib peers a pb o all frame s h service message owns f
          room in
      let both = sym took ∙ answered in
      let same : o1 ≡ o' = ap (λ q. q.1) both in
      let named : (received a pb).id ≡ resp.id =
        ap (λ r. r.id) (ok-injective _ resp (ap (λ q. q.0) both)) in
      let (found, ran, has) =
        execute-finds_all by_id o' (all ++ received a pb ∷ []) ctx req ast
          (subst (λ n. IsServing codec n (all ++ received a pb ∷ [])) same serving)
          (subst (λ n. IsSearchable codec lib n.idx n.store) same searchable) one reads l off c1 c2
          parsed asks in
      (
        found,
        ran,
        subst (λ id. contains (ids found) id ≡ true) named
            (kept_last (λ e. contains (ids found) e.id ≡ true) (passes req ast) all (received a pb)
              passed has),
      )
