-- ===== src/Cluster/Wire.antt =====
-- The cluster state on the wire: `GetClusterState` of internal/metadata/server.go and
-- `protoToClusterState` of internal/cluster/client.go. A shard number is an int32 there. The maps of
-- the model have no negative shard number, so one that wrapped is left out; no shard is looked up by
-- a negative number.
use distributed_log_query_en.Prelude.{ℕ, List, [], ◌∷◌, nat_key}
use distributed_log_query_en.Prelude.Text.{Text, text_key}
use distributed_log_query_en.Prelude.Dict.{Dict, put}
use distributed_log_query_en.Prelude.Int.{ℤ, pos, negsuc}
use distributed_log_query_en.Types.{to_int32}
use distributed_log_query_en.Metadata.State.{ClusterState, NodeRecord, ShardRecord, NodeStatus}

pub record NodeInfo : Type 0 where
  pub id : Text
  pub address : Text
  pub shards : List ℤ
  pub status : NodeStatus
  pub last_seen_unix_ns : ℤ

pub record ShardInfo : Type 0 where
  pub shard_id : ℤ
  pub primary_node : Text
  pub replica_node : Text

pub record GetClusterStateResponse : Type 0 where
  pub nodes : List NodeInfo
  pub shards : List ShardInfo

unfoldable pub shard_numbers : List ℕ → List ℤ
shard_numbers [] = []
shard_numbers (s ∷ ss) = to_int32 s ∷ shard_numbers ss

unfoldable pub node_infos : Dict Text NodeRecord → List NodeInfo
node_infos [] = []
node_infos ((_, n) ∷ nodes) =
    record {
      id = n.id;
      address = n.address;
      shards = shard_numbers n.shards;
      status = n.status;
      last_seen_unix_ns = n.last_seen;
    }
    ∷ node_infos nodes

unfoldable pub shard_infos : Dict ℕ ShardRecord → List ShardInfo
shard_infos [] = []
shard_infos ((_, sr) ∷ shards) =
    record {
      shard_id = to_int32 sr.shard_id;
      primary_node = sr.primary_node;
      replica_node = sr.replica_node;
    }
    ∷ shard_infos shards

unfoldable pub get_cluster_state : ClusterState → GetClusterStateResponse
unfolding node_infos shard_infos
get_cluster_state st = record { nodes = node_infos st.nodes; shards = shard_infos st.shards }

unfoldable pub shard_list : List ℤ → List ℕ
shard_list [] = []
shard_list (pos s ∷ ss) = s ∷ shard_list ss
shard_list (negsuc _ ∷ ss) = shard_list ss

unfoldable pub node_map : List NodeInfo → Dict Text NodeRecord → Dict Text NodeRecord
node_map [] m = m
node_map (n ∷ ns) m = node_map ns (
    put n.id
      (record {
        id = n.id;
        address = n.address;
        shards = shard_list n.shards;
        status = n.status;
        last_seen = pos 0;
      })
      m)

unfoldable pub put_shard : ℤ → ShardInfo → Dict ℕ ShardRecord → Dict ℕ ShardRecord
put_shard (negsuc _) s m = m
put_shard (pos n) s m =
    put n (record { shard_id = n; primary_node = s.primary_node; replica_node = s.replica_node }) m

unfoldable pub shard_map : List ShardInfo → Dict ℕ ShardRecord → Dict ℕ ShardRecord
unfolding put_shard
shard_map [] m = m
shard_map (s ∷ ss) m = shard_map ss (put_shard s.shard_id s m)

unfoldable pub proto_to_cluster_state : GetClusterStateResponse → ClusterState
unfolding node_map shard_map
proto_to_cluster_state resp = record {
  nodes = node_map resp.nodes [];
  shards = shard_map resp.shards [];
}
