-- ===== src/Ingest/Orchestrator/Laws.antt =====
-- What internal/ingest/orchestrator.go promises of an accepted write, and where writes take place.
use distributed_log_query_en.Ingest.Router.{shard_id}
use distributed_log_query_en.Storage.Manager.Paths.{
  append_locked-next_seq, append_locked-paths, append_with_path-eq,
}
use distributed_log_query_en.Index.{add}
use distributed_log_query_en.Prelude.Result.{ok}
use distributed_log_query_en.Prelude.Int.{pos}
use distributed_log_query_en.Storage.Read.Frames.{IsFrame}
use distributed_log_query_en.Index.Coverage.{Covers-add_self, Covers-add, Covers}
use mathlib.Core.Path.{subst}
use distributed_log_query_en.Storage.Manager.Append.{append_locked-IsOpen, IsOpen}
use distributed_log_query_en.Prelude.PathSet.{contains-last?, contains}
use distributed_log_query_en.Storage.Bloom.{BloomLib}
use distributed_log_query_en.Prelude.Text.{text_key, Text}
use distributed_log_query_en.Types.{Bytes, LogEntry, Codec}
use distributed_log_query_en.Ingest.Orchestrator.{
  acknowledge, received, route, Arrival, IngestRequest, handle_ingest, write_local, append_and_add,
  Peers, get_or_create_client, forward, replicate, Orchestrator,
}
use distributed_log_query_en.Prelude.{
  ◌≤◌, ==_refl, nat_eqb, refl, Bool-cases, All-append, inr, ==_ne, inl, ◌++◌, ◌^◌, ◌<◌, ◌∙◌, some,
  ◌+◌, ap, ◌≢◌, All-map, Option-cases, ◌⊎◌, sym, arith, All, true, ◌≡◌, List, [], ◌∷◌,
}

module _ {Filter : Type 0} where
  -- The index knows the entry as one of a segment that the manager lists.
  pub record Found (o : Orchestrator Filter) (e : LogEntry) : Type 0 where
    pub path : Text
    pub listed : contains o.store.0.paths path ≡ true
    pub covered : Covers o.idx path e

  -- A node whose open segments hold the entries `all`, each of them known to the index.
  pub record IsServing (codec : Codec) (o : Orchestrator Filter) (all : List LogEntry)
      : Type 0 where
    pub stored : IsOpen codec o.store all
    pub found : All (Found o) all

  -- The store and the index are all that serving depends on.
  pub IsServing-same :
      (codec : Codec) (o o' : Orchestrator Filter) (all : List LogEntry)
      → o'.store ≡ o.store
      → o'.idx ≡ o.idx
      → IsServing codec o all
      → IsServing codec o' all
  IsServing-same codec o o' all same index h = record {
    stored = subst (λ st. IsOpen codec st all) (sym same) h.stored;
    found =
        All-map (Found o) (Found o') all
          (λ x f. record {
            path = f.path;
            listed = ap (λ st. contains st.0.paths f.path) same ∙ f.listed;
            covered = subst (λ i. Covers i f.path x) (sym index) f.covered;
          })
          h.found;
  }

  pub replicate-store :
      (replica : Text) (e : LogEntry) (o : Orchestrator Filter)
      → ((replicate replica e o).store ≡ o.store) × ((replicate replica e o).idx ≡ o.idx)
  unfolding replicate
  replicate-store replica e o = ground (arith, Option-cases o.replicator)

  -- Replication touches neither the store nor the index.
  pub IsServing-replicate :
      (codec : Codec) (replica : Text) (e : LogEntry) (o : Orchestrator Filter)
      (all : List LogEntry)
      → IsServing codec o all
      → IsServing codec (replicate replica e o) all
  IsServing-replicate codec replica e o all h =
      let (same, index) = replicate-store replica e o in
      IsServing-same codec o (replicate replica e o) all same index h

  forward-keeps :
      (peers : Peers) (req : IngestRequest) (primary : Text) (o : Orchestrator Filter)
      → ((forward peers req primary o).1.store ≡ o.store)
        × ((forward peers req primary o).1.idx ≡ o.idx)
        × ((forward peers req primary o).1.replicator ≡ o.replicator)
  unfolding forward get_or_create_client
  forward-keeps peers req primary o = ground arith

  -- Whether this node takes the writes of the entry's shard.
  abbrev pub Owns : Orchestrator Filter → LogEntry → Type 0
  Owns o pb =
      (o.total_shards ≡ 0)
      ⊎ ((o.node_id ≢ [])
          × ((o.state_reader.shard_owners (pos (shard_id pb.namespace pb.service o.total_shards))).0
              ≡ o.node_id))

module _ (codec : Codec) (lib : BloomLib) where
  open lib use {Filter}

  -- The append and its index entry keep a node serving, with the new entry at the end.
  pub append_and_add-IsServing :
      (o : Orchestrator Filter) (all : List LogEntry) (e : LogEntry) (frame : Bytes)
      → IsServing codec o all
      → IsFrame codec e frame
      → o.store.0.next_seq + 1 < 2 ^ 64
      → (o' : Orchestrator Filter) × (append_and_add codec lib e o ≡ (true, o'))
        × IsServing codec o' (all ++ e ∷ [])
        × (o'.store.0.next_seq ≤ o.store.0.next_seq + 1)
  unfolding append_and_add
  append_and_add-IsServing o all e frame h f room =
      let (st, wrote, opened, reads) =
        append_locked-IsOpen codec lib o.store all e frame h.stored f room in
      let path = opened.seg.path in
      let o' = record o { store = st; idx = add e path o.idx } in
      let added = append_with_path-eq codec lib e o.store st path wrote opened.last in
      (
        o',
        rw (append_and_add, added) refl,
        record {
          stored = opened;
          found =
              All-append (Found o') all (e ∷ [])
                (All-map (Found o) (Found o') all
                  (λ x k. record {
                    path = k.path;
                    listed = append_locked-paths codec lib k.path e o.store st wrote k.listed;
                    covered = Covers-add x e k.path path o.idx k.covered;
                  })
                  h.found)
                (
                  record {
                    path = path;
                    listed = contains-last? st.0.paths path opened.last;
                    covered = Covers-add_self e path o.idx;
                  },
                  tt,
                );
        },
        append_locked-next_seq codec lib e o.store st wrote room,
      )

  pub write_local-eq :
      (a : Arrival) (pb : LogEntry) (replica : Text) (o o' : Orchestrator Filter)
      → append_and_add codec lib (received a pb) o ≡ (true, o')
      → write_local codec lib a pb replica o
        ≡ (ok (record { id = (received a pb).id; ok = true }), replicate replica (received a pb) o')
  unfolding write_local acknowledge
  write_local-eq a pb replica o o' wrote = ap (acknowledge replica (received a pb)) wrote

  -- A valid entry of a shard that the node owns is written here.
  pub handle_ingest-owned :
      (peers : Peers) (a : Arrival) (pb : LogEntry) (o : Orchestrator Filter)
      → pb.service ≢ []
      → pb.message ≢ []
      → Owns o pb
      → (replica : Text) × (handle_ingest codec lib peers a (record { entry = some pb }) o
          ≡ write_local codec lib a pb replica o)
  unfolding handle_ingest route
  handle_ingest-owned peers a pb o service message owns =
      let owners =
        o.state_reader.shard_owners (pos (shard_id pb.namespace pb.service o.total_shards)) in
      elim (Bool-cases (nat_eqb o.total_shards 0)) [
        | inl local ↦
            ([], ground (arith, ==_ne pb.service [] service, ==_ne pb.message [] message, local))
        | inr routed ↦ elim owns [
          | inl local ↦ absurd (ground arith)
          | inr (named, mine) ↦ (
            owners.1,
            ground (
              arith,
              ==_ne pb.service [] service,
              ==_ne pb.message [] message,
              routed,
              mine,
              ==_ne o.node_id [] named,
              ==_refl o.node_id,
            ),
          )
        ]
      ]

  -- Where the cluster has shards and another node, or none, is the primary of the entry's shard, a
  -- request changes neither the store nor the index nor the queues of the replicas, whatever it is
  -- answered with.
  pub handle_ingest-elsewhere :
      (peers : Peers) (a : Arrival) (req : IngestRequest) (o : Orchestrator Filter)
      → o.total_shards ≢ 0
      → ((pb : LogEntry)
          → req.entry ≡ some pb
          → (o.state_reader.shard_owners (pos (shard_id pb.namespace pb.service o.total_shards))).0
            ≢ o.node_id)
      → ((handle_ingest codec lib peers a req o).1.store ≡ o.store)
        × ((handle_ingest codec lib peers a req o).1.idx ≡ o.idx)
        × ((handle_ingest codec lib peers a req o).1.replicator ≡ o.replicator)
  unfolding handle_ingest route
  handle_ingest-elsewhere peers a req o sharded away = elim (Option-cases req.entry) [
    | inl e ↦ rw (handle_ingest, e) (refl, refl, refl)
    | inr (pb, e) ↦
        let owners =
          o.state_reader.shard_owners (pos (shard_id pb.namespace pb.service o.total_shards)) in
        ground (
          arith,
          forward-keeps peers (record { entry = some pb }) owners.0 o,
          away pb e,
          text_key.eqb_iff owners.0 o.node_id,
        )
  ]
