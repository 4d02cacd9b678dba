-- ===== src/Cluster/Routing.antt =====
-- The routing that a storage node reads from the wire is that of the coordinator's state:
-- internal/metadata/server.go against internal/cluster/client.go and state_cache.go.
use mathlib.Core.Path.{subst}
use distributed_log_query_en.Metadata.Keyed.Log.{new_shards-keyed, log-KeyedBy}
use distributed_log_query_en.Metadata.Fsm.{new_shards, new_fsm, apply_all, Command}
use distributed_log_query_en.Metadata.Keyed.{Distinct, ShardKeyed, NodeKeyed, Each}
use distributed_log_query_en.Prelude.Int.{pos}
use distributed_log_query_en.Cluster.{node_address, shard_owners}
use distributed_log_query_en.Prelude.PathSet.{contains}
use distributed_log_query_en.Prelude.Text.{text_key, Text}
use distributed_log_query_en.Cluster.Wire.{
  shard_numbers, shard_list, put_shard, get_cluster_state, shard_infos, node_infos,
  proto_to_cluster_state, shard_map, node_map,
}
use distributed_log_query_en.Types.{to_int32_small}
use distributed_log_query_en.Metadata.State.{ShardRecord, NodeRecord, ClusterState}
use distributed_log_query_en.Prelude.Dict.{get-put, put, keys, get, Dict}
use distributed_log_query_en.Prelude.{
  sym, All-map, All, ◌≤◌, List, [], ◌∷◌, arith, none, false, ◌^◌, ◌≡◌, some, [], ◌<◌, ℕ, Option,
  refl, nat_key,
}

-- Maps whose records name their own keys, once each, with shard numbers that are int32 values.
abbrev pub NodesKeyed : Dict Text NodeRecord → Type 0
NodesKeyed [] = Unit
NodesKeyed ((j, n) ∷ m) = (n.id ≡ j) × (contains (keys m) j ≡ false) × NodesKeyed m

abbrev pub ShardsKeyed : Dict ℕ ShardRecord → Type 0
ShardsKeyed [] = Unit
ShardsKeyed ((j, sr) ∷ m) =
    (sr.shard_id ≡ j) × (j < 2 ^ 31) × (contains (keys m) j ≡ false) × ShardsKeyed m

abbrev pub IsKeyed : ClusterState → Type 0
IsKeyed st = NodesKeyed st.nodes × ShardsKeyed st.shards

get-none : (j : Text) (m : Dict Text NodeRecord) → contains (keys m) j ≡ false → get j m ≡ none
unfolding get contains
get-none j [] h = refl
get-none j ((i, w) ∷ m) h = ground (arith, get-none j m)

get-none_shard : (j : ℕ) (m : Dict ℕ ShardRecord) → contains (keys m) j ≡ false → get j m ≡ none
unfolding get contains
get-none_shard j [] h = refl
get-none_shard j ((i, w) ∷ m) h = ground (arith, get-none_shard j m)

abbrev address_of : Option NodeRecord → Text
address_of none = []
address_of (some n) = n.address

abbrev owners_of : Option ShardRecord → Text × Text
owners_of none = ([], [])
owners_of (some sr) = (sr.primary_node, sr.replica_node)

unfoldable address_else : Option NodeRecord → Option NodeRecord → Text
address_else none other = address_of other
address_else (some n) other = n.address

address-node_map :
    (j : Text) (nodes m : Dict Text NodeRecord)
    → NodesKeyed nodes
    → address_of (get j (node_map (node_infos nodes) m)) ≡ address_else (get j nodes) (get j m)
unfolding node_map node_infos get address_else
address-node_map j [] m h = refl
address-node_map j ((i, n) ∷ nodes) m (same, once, h) =
    let converted = record n { shards = shard_list (shard_numbers n.shards); last_seen = pos 0 } in
    let after = put n.id converted m in
    ground (
      arith,
      address-node_map j nodes after h,
      get-put n.id j converted m,
      text_key.eqb_iff i j,
      text_key.eqb_iff n.id j,
      get-none i nodes once,
    )

unfoldable owners_else : Option ShardRecord → Option ShardRecord → Text × Text
owners_else none other = owners_of other
owners_else (some sr) other = (sr.primary_node, sr.replica_node)

owners-shard_map :
    (j : ℕ) (shards m : Dict ℕ ShardRecord)
    → ShardsKeyed shards
    → owners_of (get j (shard_map (shard_infos shards) m)) ≡ owners_else (get j shards) (get j m)
unfolding shard_map shard_infos get owners_else put_shard
owners-shard_map j [] m h = refl
owners-shard_map j ((i, sr) ∷ shards) m (same, small, once, h) =
    let number = to_int32_small sr.shard_id (omega arith) in
    let converted : ShardRecord = record {
      shard_id = sr.shard_id;
      primary_node = sr.primary_node;
      replica_node = sr.replica_node;
    } in
    rw number (
      ground (
        arith,
        owners-shard_map j shards (put sr.shard_id converted m) h,
        get-put sr.shard_id j converted m,
        get-none_shard i shards once,
      ))

shard_owners-eq :
    (st : ClusterState) (shard_id : ℕ)
    → shard_owners st (pos shard_id) ≡ owners_of (get shard_id st.shards)
unfolding shard_owners
shard_owners-eq st shard_id = ground arith

node_address-eq :
    (st : ClusterState) (node_id : Text)
    → node_address st node_id ≡ address_of (get node_id st.nodes)
unfolding node_address
node_address-eq st node_id = ground arith

state_reader-keyed :
    (st : ClusterState)
    → IsKeyed st
    → ((shard_id : ℕ)
        → shard_owners (proto_to_cluster_state (get_cluster_state st)) (pos shard_id)
          ≡ shard_owners st (pos shard_id))
      × ((node_id : Text)
          → node_address (proto_to_cluster_state (get_cluster_state st)) node_id
            ≡ node_address st node_id)
unfolding proto_to_cluster_state get_cluster_state owners_else address_else get
state_reader-keyed st (nodes, shards) = (
  λ shard_id. ground (
    arith,
    shard_owners-eq (proto_to_cluster_state (get_cluster_state st)) shard_id,
    shard_owners-eq st shard_id,
    owners-shard_map shard_id st.shards [] shards,
  ),
  λ node_id. ground (
    arith,
    node_address-eq (proto_to_cluster_state (get_cluster_state st)) node_id,
    node_address-eq st node_id,
    address-node_map node_id st.nodes [] nodes,
  ),
)

nodes-keyed :
    (ks : List ℕ) (m : Dict Text NodeRecord) → Each (NodeKeyed ks) m → Distinct m → NodesKeyed m
nodes-keyed ks [] h once = tt
nodes-keyed ks ((j, n) ∷ m) (k, h) (away, once) = (k.0, away, nodes-keyed ks m h once)

shards-keyed :
    (m : Dict ℕ ShardRecord)
    → Each ShardKeyed m
    → Distinct m
    → All (λ s. s < 2 ^ 31) (keys m)
    → ShardsKeyed m
shards-keyed [] h once small = tt
shards-keyed ((j, sr) ∷ m) (k, h) (away, once) (lt, small) =
    (k, lt, away, shards-keyed m h once small)

-- The state after the commands of a log has its nodes under their own IDs, once each.
pub log-NodesKeyed :
    (total_shards : ℕ) (cs : List Command) → NodesKeyed (apply_all cs (new_fsm total_shards)).nodes
log-NodesKeyed total_shards cs =
    let h = log-KeyedBy total_shards cs in
    nodes-keyed (keys (new_shards total_shards)) _ h.nodes h.once

-- In a cluster of at most 2^31 shards, whatever the commands of the coordinators' log: the owners of
-- each shard and the address of each node that a storage node reads from what `GetClusterState`
-- answered are those of the coordinator's state.
pub state_reader-wire :
    (total_shards : ℕ) (cs : List Command)
    → total_shards ≤ 2 ^ 31
    → ((shard : ℕ)
        → shard_owners
            (proto_to_cluster_state (get_cluster_state (apply_all cs (new_fsm total_shards))))
            (pos shard)
          ≡ shard_owners (apply_all cs (new_fsm total_shards)) (pos shard))
      × ((node_id : Text)
          → node_address
              (proto_to_cluster_state (get_cluster_state (apply_all cs (new_fsm total_shards))))
              node_id
            ≡ node_address (apply_all cs (new_fsm total_shards)) node_id)
state_reader-wire total_shards cs few =
    let st = apply_all cs (new_fsm total_shards) in
    let h = log-KeyedBy total_shards cs in
    let below = (new_shards-keyed total_shards).2 in
    let small =
      All-map (λ s. s < total_shards) (λ s. s < 2 ^ 31) (keys (new_shards total_shards))
        (λ s lt. omega arith) below in
    state_reader-keyed st (
      log-NodesKeyed total_shards cs,
      shards-keyed st.shards h.shards h.shards_once
          (subst (All (λ s. s < 2 ^ 31)) (sym h.shard_keys) small),
    )
