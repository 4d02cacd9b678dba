-- ===== src/Ingest/Server/Writes.antt =====
-- What internal/ingest/server.go does with batches and with copies from a primary.
use distributed_log_query_en.Prelude.Int.{pos, int_key}
use distributed_log_query_en.Rpc.{Code}
use distributed_log_query_en.Storage.Read.Frames.{IsFrame}
use distributed_log_query_en.Ingest.Orchestrator.Laws.{append_and_add-IsServing, IsServing}
use distributed_log_query_en.Ingest.Router.{shard_id-lt, shard_id}
use distributed_log_query_en.Prelude.Result.{Result-cases, ok-injective, ok}
use distributed_log_query_en.Replication.{ReplicateEntryRequest, send}
use distributed_log_query_en.Ingest.Convert.{proto_to_entry}
use distributed_log_query_en.Ingest.Orchestrator.{Orchestrator, Arrival, Peers}
use distributed_log_query_en.Ingest.Server.{
  batch_response, IngestBatchResponse, ingest_batch, ingest, is_internal, refuses_replica,
  replicate_entry, ingest_all,
}
use distributed_log_query_en.Storage.Bloom.{BloomLib}
use distributed_log_query_en.Prelude.{
  ◌<◌, ◌<◌, ◌<◌, ◌<◌, ◌<◌, ◌<◌, ◌<◌, ◌<◌, ◌<◌, ◌<◌, ◌<◌, ◌<◌, ◌<◌, ◌<◌, ◌<◌, ◌<◌, ◌<◌, ◌<◌, ◌<◌,
  ◌<◌, ◌<◌, ◌<◌, ◌<◌, ◌<◌, ◌<◌, ◌<◌, ◌<◌, ◌<◌, ◌<◌, ◌<◌, ◌<◌, ◌<◌, ◌<◌, ◌<◌, ◌<◌, ◌<◌, ◌<◌, ◌<◌,
  ◌<◌, ◌<◌, ◌<◌, ◌<◌, ◌<◌, ◌<◌, ◌<◌, ◌<◌, ◌<◌, ◌<◌, ◌<◌, ◌<◌, ◌<◌, ◌<◌, ◌<◌, ◌<◌, ◌<◌, ◌<◌, ◌<◌,
  ◌<◌, ◌<◌, ◌<◌, ◌∙◌, sym, Bool-cases, inr, suc, inl, refl, ◌++◌, none, ap, arith, ◌≢◌, length,
  false, ◌+◌, ◌^◌, some, ◌<◌, ◌≡◌, List, ℕ, [], ◌∷◌,
}
use distributed_log_query_en.Types.{to_int32, to_int32_small, Bytes, LogEntry, Codec}

module _ (codec : Codec) (lib : BloomLib) where
  open lib use {Filter}

  ingest_all-counts :
      (peers : Peers) (arrivals : ℕ → Arrival) (n : ℕ) (pbs : List LogEntry)
      (accepted rejected a r : ℕ) (o o' : Orchestrator Filter)
      → ingest_all codec lib peers arrivals n pbs accepted rejected o ≡ (ok (a, r), o')
      → a + r ≡ accepted + rejected + length pbs
  unfolding ingest_all
  ingest_all-counts peers arrivals n [] accepted rejected a r o o' h = omega (
    arith,
    ap (λ c. c.0) (ok-injective (accepted, rejected) (a, r) (ap (λ q. q.0) h)),
    ap (λ c. c.1) (ok-injective (accepted, rejected) (a, r) (ap (λ q. q.0) h)),
  )
  ingest_all-counts peers arrivals n (pb ∷ pbs) accepted rejected a r o o' h =
      let turn = ingest codec lib peers (arrivals n) (record { entry = some pb }) o in
      elim (Result-cases turn.0) [
        | inl (answer, e) ↦ omega (
          arith,
          ingest_all-counts peers arrivals (suc n) pbs (suc accepted) rejected a r turn.1 o'
              (rw (ingest_all, e) at h),
        )
        | inr (code, e) ↦ elim (Bool-cases (is_internal code)) [
          | inl stop ↦ cc (rw (ingest_all, e, stop) at h)
          | inr go ↦ omega (
            arith,
            ingest_all-counts peers arrivals (suc n) pbs accepted (suc rejected) a r turn.1 o'
                (rw (ingest_all, e, go) at h),
          )
        ]
      ]

  -- A batch of fewer than 2^31 entries that is answered without an error has each of its entries counted
  -- once, as accepted or as rejected.
  ingest_batch-counts :
      (peers : Peers) (arrivals : ℕ → Arrival) (entries : List LogEntry)
      (resp : IngestBatchResponse) (o o' : Orchestrator Filter)
      → length entries < 2 ^ 31
      → ingest_batch codec lib peers arrivals (some entries) o ≡ (ok resp, o')
      → (a : ℕ) × (r : ℕ) × (resp.accepted ≡ pos a)
        × (resp.rejected ≡ pos r)
        × (a + r ≡ length entries)
  unfolding ingest_batch batch_response
  ingest_batch-counts peers arrivals entries resp o o' few h =
      let run = ingest_all codec lib peers arrivals 0 entries 0 0 o in
      elim (Result-cases run.0) [
        | inr (code, e) ↦ cc (rw e at h)
        | inl ((a, r), e) ↦
            let counted =
              ingest_all-counts peers arrivals 0 entries 0 0 a r o run.1 (ap (λ q. (q, run.1)) e) in
            let answered : record { accepted = to_int32 a; rejected = to_int32 r } ≡ resp =
              ok-injective _ _ (ap batch_response (sym e) ∙ ap (λ q. q.0) h) in
            (
              a,
              r,
              ap (λ q. q.accepted) (sym answered) ∙ to_int32_small a (omega arith),
              ap (λ q. q.rejected) (sym answered) ∙ to_int32_small r (omega arith),
              omega (arith, counted),
            )
      ]

  -- On a serving node, an entry that it does not refuse as a replica is stored behind the others and
  -- known to the index, and the node goes on serving.
  pub replicate_entry-IsServing :
      (req : ReplicateEntryRequest) (pb : LogEntry) (o : Orchestrator Filter) (all : List LogEntry)
      (frame : Bytes)
      → req.entry ≡ some pb
      → refuses_replica codec lib req pb o ≡ false
      → IsServing codec o all
      → IsFrame codec pb frame
      → o.store.0.next_seq + 1 < 2 ^ 64
      → (o' : Orchestrator Filter) × (replicate_entry codec lib req o ≡ (none, o'))
        × IsServing codec o' (all ++ pb ∷ [])
  unfolding replicate_entry proto_to_entry
  replicate_entry-IsServing req pb o all frame given taken h f room =
      let (o', wrote, serving, used) = append_and_add-IsServing codec lib o all pb frame h f room in
      (o', rw (replicate_entry, given, taken, wrote) refl, serving)

  -- What the replicator sends of an entry whose service hashes to another shard without the namespace
  -- is refused by every replica, which stores nothing.
  pub replicate_entry_lost_namespace :
      (e : LogEntry) (o : Orchestrator Filter)
      → 0 < o.total_shards
      → o.total_shards < 2 ^ 31
      → shard_id [] e.service o.total_shards ≢ shard_id e.namespace e.service o.total_shards
      → replicate_entry codec lib
          (send (record { entry = e; shard_id = shard_id e.namespace e.service o.total_shards }))
          o
        ≡ (some Code.failed_precondition, o)
  unfolding replicate_entry send refuses_replica
  replicate_entry_lost_namespace e o sharded small apart = ground (
    arith,
    to_int32_small (shard_id e.namespace e.service o.total_shards)
        (omega (arith, shard_id-lt e.namespace e.service o.total_shards sharded)),
    int_key.eqb_iff (pos (shard_id [] e.service o.total_shards))
        (pos (shard_id e.namespace e.service o.total_shards)),
  )
