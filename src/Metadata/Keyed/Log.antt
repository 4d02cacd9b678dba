-- ===== src/Metadata/Keyed/Log.antt =====
-- Every command of internal/metadata/fsm.go keeps the maps keyed.
use distributed_log_query_en.Metadata.Assignment.Owners.{contains-healthy_ids}
use mathlib.Core.Path.{subst}
use distributed_log_query_en.Prelude.Order.{sort_by, sort_by-All}
use distributed_log_query_en.Metadata.Assignment.{update_all-node}
use distributed_log_query_en.Prelude.Dict.{get, keys}
use distributed_log_query_en.Prelude.Int.{ℤ}
use distributed_log_query_en.Metadata.Keyed.Commands.{
  assign-KeyedBy, put_node-KeyedBy, shard_at-keyed, known_of_healthy, update_nodes-KeyedBy,
  put_shard-KeyedBy, update_shards-KeyedBy,
}
use distributed_log_query_en.Prelude.Text.{text_key, Text}
use distributed_log_query_en.Metadata.State.{
  unhealthy, ShardRecord, shard_at, status_is_healthy, is_healthy, node_at, ClusterState,
}
use distributed_log_query_en.Metadata.Keyed.{
  All-keys_put, Distinct-put, Each-put, NodeKeyed, Each-get, Distinct, KeyedBy, ShardKeyed, Each,
}
use distributed_log_query_en.Metadata.Fsm.{
  unknown_type, malformed_payload, malformed, healthy_ids, mark_unhealthy, first_other, update_all,
  update_heartbeat, clear_replica, sort_shards, Command, apply_all, apply, apply_mark_unhealthy,
  apply_update_heartbeat, apply_register_node, release_primary, assign_replicas, rebalance_primary,
  clear_owners, new_fsm, new_shards,
}
use distributed_log_query_en.Prelude.PathSet.{contains}
use distributed_log_query_en.Prelude.{
  ◌∙◌, sym, zero, if◌then◌else◌, ltb, nat_key, ◌==◌, All-map, suc, inr, ==_refl, refl, ◌<◌, inl,
  length, ap, arith, Option-cases, Bool-cases, true, ◌≡◌, All, ℕ, List, [], ◌∷◌,
}

All-self : (xs : List ℕ) → All (λ s. contains xs s ≡ true) xs
unfolding contains
All-self [] = tt
All-self (x ∷ xs) = (
  ground (arith, ==_refl x),
  All-map (λ s. contains xs s ≡ true) (λ s. contains (x ∷ xs) s ≡ true) xs (λ s h. ground arith)
      (All-self xs),
)

module _ (ks : List ℕ) where
  clear_owners-KeyedBy : (st : ClusterState) → KeyedBy ks st → KeyedBy ks (clear_owners st)
  unfolding clear_owners
  clear_owners-KeyedBy st h =
      update_shards-KeyedBy ks
        (record st { nodes = update_all (λ n. record n { shards = [] }) st.nodes })
        (λ sr. record sr { primary_node = [] })
        (update_nodes-KeyedBy ks st (λ n. record n { shards = [] }) h (λ id n k. (k.0, tt)))
        (λ sr. refl)

  is_healthy-clear_owners :
      (st : ClusterState) (id : Text) → is_healthy (clear_owners st) id ≡ is_healthy st id
  unfolding clear_owners node_at
  is_healthy-clear_owners st id =
      ap status_is_healthy (update_all-node (λ n. record n { shards = [] }) st.nodes id (λ n. refl))

  rebalance_primary-KeyedBy :
      (st : ClusterState) → KeyedBy ks st → KeyedBy ks (rebalance_primary st)
  unfolding rebalance_primary sort_shards
  rebalance_primary-KeyedBy st h = elim (Bool-cases (length (healthy_ids st) == 0)) [
    | inl none_healthy ↦ rw (none_healthy, rebalance_primary) h
    | inr some_healthy ↦
        let mine =
          sort_by-All ltb (λ s. contains ks s ≡ true) (keys st.shards)
            (subst (λ l. All (λ s. contains ks s ≡ true) l) (sym h.shard_keys) (All-self ks)) in
        let assigned =
          assign-KeyedBy ks 0 (healthy_ids st) (sort_by ltb (keys st.shards)) (clear_owners st)
            some_healthy (clear_owners-KeyedBy st h) mine
            (λ id c. is_healthy-clear_owners st id ∙ sym (contains-healthy_ids st id) ∙ c) in
        rw (some_healthy, rebalance_primary)
          (update_nodes-KeyedBy ks _ (λ n. record n { shards = sort_by ltb n.shards }) assigned
            (λ id n k. (k.0, sort_by-All ltb (λ s. contains ks s ≡ true) n.shards k.1)))
  ]

  reassign-KeyedBy :
      (st : ClusterState) → KeyedBy ks st → KeyedBy ks (assign_replicas (rebalance_primary st))
  unfolding assign_replicas
  reassign-KeyedBy st h =
      update_shards-KeyedBy ks (rebalance_primary st)
        (λ sr. record sr {
          replica_node = first_other (healthy_ids (rebalance_primary st)) sr.primary_node;
        })
        (rebalance_primary-KeyedBy st h) (λ sr. refl)

  release_primary-KeyedBy :
      (ss : List ℕ) (st : ClusterState)
      → KeyedBy ks st
      → All (λ s. contains ks s ≡ true) ss
      → KeyedBy ks (release_primary ss st)
  unfolding release_primary
  release_primary-KeyedBy [] st h k = h
  release_primary-KeyedBy (s ∷ ss) st h (k, rest) =
      release_primary-KeyedBy ss _
        (put_shard-KeyedBy ks st s (record (shard_at s st) { primary_node = [] }) h k
          (shard_at-keyed ks st s h k))
        rest

  register-KeyedBy :
      (id address : Text) (now : ℤ) (st : ClusterState)
      → KeyedBy ks st
      → KeyedBy ks (apply_register_node id address now st)
  unfolding apply_register_node
  register-KeyedBy id address now st h = elim (Bool-cases (is_healthy st id)) [
    | inl already ↦
        let (n, known, here) = known_of_healthy st id already in
        let keyed = Each-get (NodeKeyed ks) id n st.nodes known h.nodes in
        rw (already, apply_register_node, here)
          (put_node-KeyedBy ks st id (record n { address = address; last_seen = now }) h keyed)
    | inr joins ↦
        rw (joins, apply_register_node)
          (reassign-KeyedBy _ (put_node-KeyedBy ks st id _ h (refl, tt)))
  ]

  heartbeat-KeyedBy :
      (id : Text) (now : ℤ) (st : ClusterState)
      → KeyedBy ks st
      → KeyedBy ks (apply_update_heartbeat id now st).0
  unfolding apply_update_heartbeat
  heartbeat-KeyedBy id now st h = elim (Option-cases (get id st.nodes)) [
    | inl absent ↦ rw (absent, apply_update_heartbeat) h
    | inr (n, known) ↦
        let keyed = Each-get (NodeKeyed ks) id n st.nodes known h.nodes in
        rw (known, apply_update_heartbeat)
          (put_node-KeyedBy ks st id (record n { last_seen = now }) h keyed)
  ]

  mark-KeyedBy :
      (id : Text) (st : ClusterState) → KeyedBy ks st → KeyedBy ks (apply_mark_unhealthy id st).0
  unfolding apply_mark_unhealthy clear_replica
  mark-KeyedBy id st h = elim (Option-cases (get id st.nodes)) [
    | inl absent ↦ rw (absent, apply_mark_unhealthy) h
    | inr (n, known) ↦
        let (same, mine) = Each-get (NodeKeyed ks) id n st.nodes known h.nodes in
        let released = release_primary-KeyedBy n.shards st h mine in
        let cleared =
          update_shards-KeyedBy ks (release_primary n.shards st)
            (λ sr. if sr.replica_node == id then record sr { replica_node = [] } else sr) released
            (λ sr. ground arith) in
        rw (known, apply_mark_unhealthy)
          (reassign-KeyedBy _ (
            put_node-KeyedBy ks (clear_replica id (release_primary n.shards st)) id
              (record n { shards = []; status = unhealthy }) cleared (same, tt)))
  ]

  apply-KeyedBy : (c : Command) (st : ClusterState) → KeyedBy ks st → KeyedBy ks (apply c st).0
  unfolding apply
  apply-KeyedBy malformed st h = h
  apply-KeyedBy malformed_payload st h = h
  apply-KeyedBy unknown_type st h = h
  apply-KeyedBy (Command.register_node id address now) st h = register-KeyedBy id address now st h
  apply-KeyedBy (update_heartbeat id now) st h = heartbeat-KeyedBy id now st h
  apply-KeyedBy (mark_unhealthy id) st h = mark-KeyedBy id st h

  apply_all-KeyedBy :
      (cs : List Command) (st : ClusterState) → KeyedBy ks st → KeyedBy ks (apply_all cs st)
  unfolding apply_all
  apply_all-KeyedBy [] st h = h
  apply_all-KeyedBy (c ∷ cs) st h = apply_all-KeyedBy cs (apply c st).0 (apply-KeyedBy c st h)

pub new_shards-keyed :
    (n : ℕ)
    → Each ShardKeyed (new_shards n)
      × Distinct (new_shards n)
      × All (λ s. s < n) (keys (new_shards n))
unfolding new_shards
new_shards-keyed zero = (tt, tt, tt)
new_shards-keyed (suc n) =
    let (each, once, below) = new_shards-keyed n in
    let v : ShardRecord = record { shard_id = n; primary_node = []; replica_node = [] } in
    (
      Each-put ShardKeyed n v (new_shards n) refl each,
      Distinct-put n v (new_shards n) once,
      All-keys_put (λ s. s < suc n) n v (new_shards n) (omega arith)
          (All-map (λ s. s < n) (λ s. s < suc n) (keys (new_shards n)) (λ s h. omega arith) below),
    )

-- Whatever the commands of the log, each record of a node or of a shard stands under its own ID, no ID
-- stands twice, the shards are those that the machine was made with, and no node is given another.
pub log-KeyedBy :
    (total_shards : ℕ) (cs : List Command)
    → KeyedBy (keys (new_shards total_shards)) (apply_all cs (new_fsm total_shards))
unfolding new_fsm
log-KeyedBy total_shards cs =
    apply_all-KeyedBy (keys (new_shards total_shards)) cs (new_fsm total_shards) (record {
      shard_keys = refl;
      nodes = tt;
      once = tt;
      shards = (new_shards-keyed total_shards).0;
      shards_once = (new_shards-keyed total_shards).1;
    })
