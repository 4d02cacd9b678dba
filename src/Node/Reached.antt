-- ===== src/Node/Reached.antt =====
-- The life of a storage node, cmd/node/main.go: it starts in an empty data directory and takes
-- writes, and whatever it has become, queries find what it took.
use distributed_log_query_en.Node.Started.{
  first_store-IsSearchable, first_store-IsOpen, start_node-empty, empty_disk,
}
use distributed_log_query_en.Entries.{ids}
use distributed_log_query_en.Prelude.Result.{ok}
use distributed_log_query_en.Prelude.Int.{pos, less}
use distributed_log_query_en.Query.Executor.Reads.{Reads}
use distributed_log_query_en.Storage.Read.Frames.{IsFrame}
use distributed_log_query_en.Query.Parser.{parse, Node}
use distributed_log_query_en.Index.{new_index}
use distributed_log_query_en.Query.Executor.{passes, effective_limit, page, execute, Context}
use distributed_log_query_en.Prelude.PathSet.{contains}
use distributed_log_query_en.Prelude.{
  keep, some, ◌^◌, ◌<◌, ◌+◌, All, ◌∷◌, false, ◌++◌, ◌∙◌, ◌≢◌, true, Option, ap, sym, ◌≡◌, Bool, ℕ,
  [], List,
}
use distributed_log_query_en.Prelude.Text.{text_key, Text}
use distributed_log_query_en.Storage.Bloom.{BloomLib}
use distributed_log_query_en.Types.{Bytes, QueryRequest, LogEntry, Codec}
use distributed_log_query_en.Node.Answers.{AsksIndexed, execute-finds_all}
use distributed_log_query_en.Node.Appended.{handle_ingest-IsSearchable}
use distributed_log_query_en.Node.Searchable.{IsSearchable}
use distributed_log_query_en.Ingest.Orchestrator.Laws.{IsServing-same, Owns, IsServing}
use distributed_log_query_en.Ingest.Orchestrator.{
  handle_ingest, received, Orchestrator, Peers, Arrival,
}
use distributed_log_query_en.Storage.Manager.Append.{IsOpen}
use mathlib.Core.Path.{subst}
use mathlib.Core.Option.{some-injective}
use distributed_log_query_en.Node.Start.{start_node}

module _ (codec : Codec) (lib : BloomLib) where
  open lib use {Filter}

  -- A node that can be reached, and the entries that it took. Between writes anything may change but
  -- its store and its index: the cluster state, the clients, the replication queues.
  pub data Reached (peers : Peers) : Orchestrator Filter → List LogEntry → Type 0 where
    started :
        {o : Orchestrator Filter} (dir : Text) (max_segment_bytes : ℕ) (bloom_enabled : Bool)
        → start_node codec dir max_segment_bytes bloom_enabled empty_disk ≡ some (o.idx, o.store)
        → Reached peers o []
    aside :
        {o o' : Orchestrator Filter} {all : List LogEntry}
        → Reached peers o all
        → o'.store ≡ o.store
        → o'.idx ≡ o.idx
        → Reached peers o' all
    wrote :
        {o : Orchestrator Filter} {all : List LogEntry} (a : Arrival) (pb : LogEntry)
        (frame : Bytes)
        → Reached peers o all
        → pb.service ≢ []
        → pb.message ≢ []
        → Owns o pb
        → IsFrame codec (received a pb) frame
        → o.store.0.next_seq + 1 < 2 ^ 64
        → Reached peers
            (handle_ingest codec lib peers a (record { entry = some pb }) o).1
            (all ++ received a pb ∷ [])

  pub Reached-IsServing :
      {peers : Peers} {o : Orchestrator Filter} {all : List LogEntry}
      → Reached peers o all
      → IsServing codec o all × IsSearchable codec lib o.idx o.store
  Reached-IsServing {o = o} (started dir max_segment_bytes bloom_enabled ran) =
      let both =
        some-injective _ _
          (sym (start_node-empty codec lib dir max_segment_bytes bloom_enabled) ∙ ran) in
      let made = ap (λ q. q.1) both in
      (
        record {
          stored =
              subst (λ st. IsOpen codec st []) made
                (first_store-IsOpen codec lib dir max_segment_bytes bloom_enabled);
          found = tt;
        },
        subst (λ i. IsSearchable codec lib i o.store) (ap (λ q. q.0) both)
            (subst (IsSearchable codec lib new_index) made
              (first_store-IsSearchable codec lib dir max_segment_bytes bloom_enabled)),
      )
  Reached-IsServing (aside {o = o} {o' = o'} {all = all} r same index) =
      let (serving, searchable) = Reached-IsServing r in
      (
        IsServing-same codec o o' all same index serving,
        subst (λ i. IsSearchable codec lib i o'.store) (sym index)
            (subst (IsSearchable codec lib o.idx) (sym same) searchable),
      )
  Reached-IsServing {peers = peers}
        (wrote {o = o} {all = all} a pb frame r service message owns f room) =
      let (s, h) = Reached-IsServing r in
      let (o1, took, serving, searchable) =
        handle_ingest-IsSearchable codec lib peers a pb o all frame s h service message owns f
          room in
      let left = sym (ap (λ q. q.1) took) in
      (
        subst (λ n. IsServing codec n (all ++ received a pb ∷ [])) left serving,
        subst (λ n. IsSearchable codec lib n.idx n.store) left searchable,
      )

  -- On every node that is reached from an empty data directory by writes, among which anything may
  -- change but the store and the index: a request whose limit and offset are not negative, whose query
  -- parses, asks for indexed fields alone and is not canceled is answered with a page of what it finds,
  -- and it finds every entry that was taken and passes. Entries of one ID have to be one entry, and all
  -- files have to be readable.
  pub execute-finds_taken :
      (by_id : Text → LogEntry) (peers : Peers) (o : Orchestrator Filter) (all : List LogEntry)
      (ctx : Context) (req : QueryRequest) (ast : Option Node)
      → Reached peers o all
      → All (λ e. e ≡ by_id e.id) all
      → ((p : Text) → Reads codec by_id o.store.1 p)
      → less req.limit (pos 0) ≡ false
      → less req.offset (pos 0) ≡ false
      → ctx.canceled_at_start ≡ false
      → ctx.canceled_at_read ≡ false
      → parse req.query_string ≡ ok ast
      → AsksIndexed ast
      → (found : List LogEntry) × (execute codec lib o.idx o.store ctx req
          ≡ ok (page req.offset (effective_limit req.limit) found))
        × All (λ e. contains (ids found) e.id ≡ true) (keep (passes req ast) all)
  execute-finds_taken by_id peers o all ctx req ast r one reads l off c1 c2 parsed asks =
      let (s, h) = Reached-IsServing r in
      execute-finds_all codec lib by_id o all ctx req ast s h one reads l off c1 c2 parsed asks
