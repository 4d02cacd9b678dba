-- ===== src/Metadata/State.antt =====
-- internal/metadata/state.go: nodes, shards and the state of the cluster.
use distributed_log_query_en.Prelude.{nat_key, ℕ, Bool, true, false, List, [], or_else}
use distributed_log_query_en.Prelude.Text.{Text, text_key}
use distributed_log_query_en.Prelude.Dict.{Dict, get}
use distributed_log_query_en.Prelude.Int.{ℤ, pos}

pub data NodeStatus : Type 0 where
  no_status healthy unhealthy : NodeStatus

pub record NodeRecord : Type 0 where
  pub id : Text
  pub address : Text
  pub shards : List ℕ
  pub status : NodeStatus
  pub last_seen : ℤ

pub record ShardRecord : Type 0 where
  pub shard_id : ℕ
  pub primary_node : Text
  pub replica_node : Text

pub record ClusterState : Type 0 where
  pub nodes : Dict Text NodeRecord
  pub shards : Dict ℕ ShardRecord

-- What a map gives for a key that it does not have.
abbrev pub zero_node : NodeRecord
zero_node = record { id = []; address = []; shards = []; status = no_status; last_seen = pos 0 }

abbrev pub zero_shard : ShardRecord
zero_shard = record { shard_id = 0; primary_node = []; replica_node = [] }

abbrev pub status_is_healthy : NodeStatus → Bool
status_is_healthy healthy = true
status_is_healthy no_status = false
status_is_healthy unhealthy = false

unfoldable pub node_at : Text → ClusterState → NodeRecord
node_at id st = or_else (get id st.nodes) zero_node

unfoldable pub shard_at : ℕ → ClusterState → ShardRecord
shard_at s st = or_else (get s st.shards) zero_shard

-- Whether the state has the node with the status healthy.
abbrev pub is_healthy : ClusterState → Text → Bool
is_healthy st id = status_is_healthy (node_at id st).status
