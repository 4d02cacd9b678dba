-- ===== src/Cluster.antt =====
-- internal/cluster/state_cache.go: the routing interface and the cached cluster state behind it. The
-- state of a `StateCache` is the cluster state that it holds.
pub mod Wire
pub mod Client
pub mod Heartbeat
pub mod Routing
use distributed_log_query_en.Prelude.{ℕ, none, some, [], nat_key}
use distributed_log_query_en.Prelude.Text.{Text, text_key}
use distributed_log_query_en.Prelude.Dict.{get}
use distributed_log_query_en.Prelude.Int.{ℤ, pos, negsuc}
use distributed_log_query_en.Prelude.Result.{Result, ok, err}
use distributed_log_query_en.Rpc.{Code}
use distributed_log_query_en.Metadata.State.{ClusterState}

pub record ClusterStateReader : Type 0 where
  -- the primary and the replica
  pub shard_owners : ℤ → Text × Text
  pub node_address : Text → Text

-- The map has no negative shard number.
unfoldable pub shard_owners : ClusterState → ℤ → Text × Text
shard_owners st (negsuc _) = ([], [])
shard_owners st (pos shard_id) = elim (get shard_id st.shards) [
  | none ↦ ([], [])
  | some sr ↦ (sr.primary_node, sr.replica_node)
]

unfoldable pub node_address : ClusterState → Text → Text
node_address st node_id = elim (get node_id st.nodes) [ none ↦ [] | some n ↦ n.address ]

unfoldable pub state_reader : ClusterState → ClusterStateReader
state_reader st = record { shard_owners = shard_owners st; node_address = node_address st }

unfoldable pub new_state_cache : ClusterState
new_state_cache = record { nodes = []; shards = [] }

-- What the coordinator answered to `GetClusterState` takes the place of the state; an error does not.
unfoldable pub refresh : Result Code ClusterState → ClusterState → ClusterState
refresh (err _) st = st
refresh (ok state) st = state
