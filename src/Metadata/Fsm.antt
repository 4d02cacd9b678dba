-- ===== src/Metadata/Fsm.antt =====
-- internal/metadata/fsm.go: the state machine that the Raft log drives.
use distributed_log_query_en.Prelude.{
  nat_key, ℕ, zero, suc, ◌%◌, Option, none, some, List, [], ◌∷◌, ◌++◌, ◌==◌, length, keep, ltb,
  if◌then◌else◌,
}
use distributed_log_query_en.Prelude.Text.{Text, text_key, text_less}
use distributed_log_query_en.Prelude.Dict.{Dict, get, put, keys}
use distributed_log_query_en.Prelude.Int.{ℤ}
use distributed_log_query_en.Prelude.Order.{sort_by}
use distributed_log_query_en.Metadata.State.{
  ShardRecord, ClusterState, healthy, unhealthy, node_at, shard_at, is_healthy,
}

-- The log entry as `json.Unmarshal` reads it: the envelope, then the payload of its type.
pub data Command : Type 0 where
  register_node : Text → Text → ℤ → Command
  update_heartbeat : Text → ℤ → Command
  mark_unhealthy : Text → Command
  malformed malformed_payload unknown_type : Command

pub data FsmError : Type 0 where
  unmarshal_command unmarshal_payload unknown_command_type : FsmError
  node_not_found : Text → FsmError

-- for id, v := range m { m[id] = f(v) }
unfoldable pub update_all {ℓ κ} : {K : Type ℓ} {V : Type κ} → (V → V) → Dict K V → Dict K V
update_all f [] = []
update_all f ((j, v) ∷ m) = (j, f v) ∷ update_all f m

unfoldable pub new_shards : ℕ → Dict ℕ ShardRecord
new_shards zero = []
new_shards (suc n) =
    put n (record { shard_id = n; primary_node = []; replica_node = [] }) (new_shards n)

unfoldable pub new_fsm : ℕ → ClusterState
unfolding new_shards
new_fsm total_shards = record { nodes = []; shards = new_shards total_shards }

-- The IDs of the healthy nodes, sorted.
unfoldable pub healthy_ids : ClusterState → List Text
healthy_ids st = sort_by text_less (keep (is_healthy st) (keys st.nodes))

-- ids[i], where i is below the length
unfoldable pub elem_at : List Text → ℕ → Text
elem_at [] i = []
elem_at (x ∷ xs) zero = x
elem_at (x ∷ xs) (suc i) = elem_at xs i

unfoldable pub clear_owners : ClusterState → ClusterState
clear_owners st = record {
  nodes = update_all (λ n. record n { shards = [] }) st.nodes;
  shards = update_all (λ sr. record sr { primary_node = [] }) st.shards;
}

-- One step of the round-robin loop.
unfoldable pub give : ℕ → Text → ClusterState → ClusterState
give shard_id node_id st = record {
  nodes =
      let n = node_at node_id st in
      put node_id (record n { shards = n.shards ++ (shard_id ∷ []) }) st.nodes;
  shards = put shard_id (record (shard_at shard_id st) { primary_node = node_id }) st.shards;
}

unfoldable pub assign : ℕ → List Text → List ℕ → ClusterState → ClusterState
unfolding give
assign i ids [] st = st
assign i ids (s ∷ all_shards) st =
    assign (suc i) ids all_shards (give s (elem_at ids (i % length ids)) st)

unfoldable pub sort_shards : ClusterState → ClusterState
sort_shards st = record st {
  nodes = update_all (λ n. record n { shards = sort_by ltb n.shards }) st.nodes;
}

unfoldable pub rebalance_primary : ClusterState → ClusterState
rebalance_primary st =
    if length (healthy_ids st) == 0
    then st
    else sort_shards (assign 0 (healthy_ids st) (sort_by ltb (keys st.shards)) (clear_owners st))

-- The first of the nodes that is not the primary.
unfoldable pub first_other : List Text → Text → Text
first_other [] primary = []
first_other (x ∷ xs) primary = if x == primary then first_other xs primary else x

unfoldable pub assign_replicas : ClusterState → ClusterState
assign_replicas st = record st {
  shards =
      update_all (λ sr. record sr { replica_node = first_other (healthy_ids st) sr.primary_node })
        st.shards;
}

unfoldable pub apply_register_node : Text → Text → ℤ → ClusterState → ClusterState
apply_register_node node_id address now st =
    if is_healthy st node_id
    then record st {
      nodes =
          put node_id (record (node_at node_id st) { address = address; last_seen = now }) st.nodes;
    }
    else assign_replicas (
        rebalance_primary (record st {
          nodes =
              put node_id
                (record {
                  id = node_id;
                  address = address;
                  shards = [];
                  status = healthy;
                  last_seen = now;
                })
                st.nodes;
        }))

unfoldable pub apply_update_heartbeat : Text → ℤ → ClusterState → ClusterState × Option FsmError
apply_update_heartbeat node_id now st = elim (get node_id st.nodes) [
  | none ↦ (st, some (node_not_found node_id))
  | some n ↦ (record st { nodes = put node_id (record n { last_seen = now }) st.nodes }, none)
]

unfoldable pub release_primary : List ℕ → ClusterState → ClusterState
release_primary [] st = st
release_primary (s ∷ ss) st =
    release_primary ss
      (record st { shards = put s (record (shard_at s st) { primary_node = [] }) st.shards })

unfoldable pub clear_replica : Text → ClusterState → ClusterState
clear_replica node_id st = record st {
  shards =
      update_all (λ sr. if sr.replica_node == node_id then record sr { replica_node = [] } else sr)
        st.shards;
}

unfoldable pub apply_mark_unhealthy : Text → ClusterState → ClusterState × Option FsmError
apply_mark_unhealthy node_id st = elim (get node_id st.nodes) [
  | none ↦ (st, some (node_not_found node_id))
  | some n ↦
      let released = clear_replica node_id (release_primary n.shards st) in
      (
        assign_replicas (
            rebalance_primary (record released {
              nodes = put node_id (record n { shards = []; status = unhealthy }) released.nodes;
            })),
        none,
      )
]

unfoldable pub apply : Command → ClusterState → ClusterState × Option FsmError
apply malformed st = (st, some unmarshal_command)
apply malformed_payload st = (st, some unmarshal_payload)
apply unknown_type st = (st, some unknown_command_type)
apply (register_node node_id address now) st = (apply_register_node node_id address now st, none)
apply (update_heartbeat node_id now) st = apply_update_heartbeat node_id now st
apply (mark_unhealthy node_id) st = apply_mark_unhealthy node_id st

-- The commands of the log, in order.
unfoldable pub apply_all : List Command → ClusterState → ClusterState
apply_all [] st = st
apply_all (c ∷ cs) st = apply_all cs (apply c st).0
