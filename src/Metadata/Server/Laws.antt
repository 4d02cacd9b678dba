-- ===== src/Metadata/Server/Laws.antt =====
-- What internal/metadata/server.go answers.
use distributed_log_query_en.Cluster.Wire.{shard_numbers}
use distributed_log_query_en.Prelude.Result.{ok}
use distributed_log_query_en.Metadata.Server.{
  committed, Raft, registered, apply_command, register_node,
}
use distributed_log_query_en.Metadata.Liveness.Laws.{release_primary-nodes}
use distributed_log_query_en.Prelude.Order.{sort_by}
use distributed_log_query_en.Metadata.Assignment.{keys-update_all, contains-keys-put}
use distributed_log_query_en.Prelude.Int.{ℤ}
use distributed_log_query_en.Prelude.PathSet.{contains}
use distributed_log_query_en.Prelude.Text.{text_key, Text}
use distributed_log_query_en.Metadata.Fsm.{
  unknown_type, malformed_payload, malformed, release_primary, mark_unhealthy, update_heartbeat,
  healthy_ids, elem_at, clear_replica, apply_mark_unhealthy, clear_owners, Command,
  apply_update_heartbeat, sort_shards, apply_register_node, rebalance_primary, give, apply_all,
  apply, assign_replicas, assign,
}
use distributed_log_query_en.Prelude.Dict.{keys-get-none, get, Dict, keys, put}
use distributed_log_query_en.Metadata.State.{is_healthy, NodeRecord, ClusterState}
use distributed_log_query_en.Prelude.{
  ==_ne, some, ◌≢◌, ◌∙◌, ap, nat_key, ltb, Option-cases, inr, ◌==◌, inl, ◌%◌, length, ==_refl,
  Bool-cases, suc, arith, true, ◌≡◌, ℕ, Bool, List, [], ◌∷◌,
}

abbrev pub has_node : ClusterState → Text → Bool
has_node st id = contains (keys st.nodes) id

contains-keys-put_self :
    (id : Text) (n : NodeRecord) (m : Dict Text NodeRecord) → contains (keys (put id n m)) id ≡ true
unfolding put contains
contains-keys-put_self id n [] = ground (arith, ==_refl id)
contains-keys-put_self id n ((j, w) ∷ m) = ground (arith, contains-keys-put_self id n m)

has_node-assign :
    (i : ℕ) (ids : List Text) (xs : List ℕ) (st : ClusterState) (id : Text)
    → has_node st id ≡ true
    → has_node (assign i ids xs st) id ≡ true
unfolding assign give
has_node-assign i ids [] st id h = h
has_node-assign i ids (x ∷ xs) st id h =
    has_node-assign (suc i) ids xs (give x (elem_at ids (i % length ids)) st) id
      (contains-keys-put (elem_at ids (i % length ids)) id _ st.nodes h)

has_node-reassign :
    (st : ClusterState) (id : Text)
    → has_node st id ≡ true
    → has_node (assign_replicas (rebalance_primary st)) id ≡ true
unfolding assign_replicas rebalance_primary sort_shards clear_owners
has_node-reassign st id h = elim (Bool-cases (length (healthy_ids st) == 0)) [
  | inl none_healthy ↦ rw (none_healthy, rebalance_primary) h
  | inr some_healthy ↦
      rw (some_healthy, rebalance_primary, keys-update_all)
        (has_node-assign 0 (healthy_ids st) (sort_by ltb (keys st.shards)) (clear_owners st) id
          (rw keys-update_all h))
]

-- No command removes a node.
has_node-apply :
    (c : Command) (st : ClusterState) (id : Text)
    → has_node st id ≡ true
    → has_node (apply c st).0 id ≡ true
unfolding apply apply_register_node apply_update_heartbeat apply_mark_unhealthy clear_replica
has_node-apply malformed st id h = h
has_node-apply malformed_payload st id h = h
has_node-apply unknown_type st id h = h
has_node-apply (Command.register_node node_id address now) st id h =
    elim (Bool-cases (is_healthy st node_id)) [
      | inl already ↦ rw (already, apply_register_node) (contains-keys-put node_id id _ st.nodes h)
      | inr joins ↦
          rw (joins, apply_register_node)
            (has_node-reassign _ id (contains-keys-put node_id id _ st.nodes h))
    ]
has_node-apply (update_heartbeat node_id now) st id h = elim (Option-cases (get node_id st.nodes)) [
  | inl absent ↦ rw (absent, apply_update_heartbeat) h
  | inr (n, known) ↦ rw (known, apply_update_heartbeat) (contains-keys-put node_id id _ st.nodes h)
]
has_node-apply (mark_unhealthy node_id) st id h = elim (Option-cases (get node_id st.nodes)) [
  | inl absent ↦ rw (absent, apply_mark_unhealthy) h
  | inr (n, known) ↦
      rw (known, apply_mark_unhealthy)
        (has_node-reassign _ id (
          contains-keys-put node_id id _ (clear_replica node_id (release_primary n.shards st)).nodes
            (ap (λ m. contains (keys m) id) (release_primary-nodes n.shards st) ∙ h)))
]

has_node-apply_all :
    (cs : List Command) (st : ClusterState) (id : Text)
    → has_node st id ≡ true
    → has_node (apply_all cs st) id ≡ true
unfolding apply_all
has_node-apply_all [] st id h = h
has_node-apply_all (c ∷ cs) st id h =
    has_node-apply_all cs (apply c st).0 id (has_node-apply c st id h)

has_node-register :
    (id address : Text) (now : ℤ) (st : ClusterState)
    → has_node (apply (Command.register_node id address now) st).0 id ≡ true
unfolding apply apply_register_node
has_node-register id address now st = elim (Bool-cases (is_healthy st id)) [
  | inl already ↦ rw (already, apply_register_node) (contains-keys-put_self id _ st.nodes)
  | inr joins ↦
      rw (joins, apply_register_node)
        (has_node-reassign _ id (contains-keys-put_self id _ st.nodes))
]

-- A registration that the leader's log takes is answered with the shards of the node in the state that
-- is read after it, whatever commands come before and in between: the node is always found.
pub register_node-found :
    (raft : Raft) (later : List Command) (now : ℤ) (id address : Text) (st : ClusterState)
    → id ≢ []
    → address ≢ []
    → raft.is_leader ≡ true
    → raft.outcome ≡ committed
    → (n : NodeRecord) × (seen : ClusterState) × (get id seen.nodes ≡ some n)
      × (register_node raft later now id address st ≡ (ok (shard_numbers n.shards), seen))
unfolding register_node apply_command registered apply
register_node-found raft later now id address st named reachable leads took =
    let st1 = apply_all raft.before st in
    let st2 = (apply (Command.register_node id address now) st1).0 in
    let seen = apply_all later st2 in
    let has = has_node-apply_all later st2 id (has_node-register id address now st1) in
    elim (Option-cases (get id seen.nodes)) [
      | inl absent ↦ cc (keys-get-none id seen.nodes absent, has)
      | inr (n, known) ↦ (
        n,
        seen,
        known,
        ground (arith, ==_ne id [] named, ==_ne address [] reachable, leads, took, known),
      )
    ]
