-- ===== src/Metadata/Liveness.antt =====
-- internal/metadata/liveness.go: nodes that did not send a heartbeat for too long are marked
-- unhealthy by the leader. The metrics and the log are left out, and so are the commands of others
-- during a pass.
use distributed_log_query_en.Metadata.Fsm.{apply_mark_unhealthy}
use distributed_log_query_en.Prelude.Dict.{Dict}
use distributed_log_query_en.Prelude.{◌&&◌, not, ◌∷◌, [], if◌then◌else◌, false, true, Bool}
use distributed_log_query_en.Prelude.Text.{Text}
use distributed_log_query_en.Prelude.Int.{sub_int64, less, ℤ}
use distributed_log_query_en.Metadata.State.{
  healthy, no_status, unhealthy, ClusterState, NodeRecord, NodeStatus,
}
pub mod Laws

abbrev pub is_unhealthy : NodeStatus → Bool
is_unhealthy unhealthy = true
is_unhealthy no_status = false
is_unhealthy healthy = false

-- now-node.LastSeen > timeoutNs, in int64
unfoldable pub is_stale : ℤ → ℤ → NodeRecord → Bool
is_stale now timeout_ns n = less timeout_ns (sub_int64 now n.last_seen)

-- `applyMarkUnhealthy`, where `applied` says for which nodes Raft takes the command.
unfoldable pub raft_mark_unhealthy : (Text → Bool) → Text → ClusterState → ClusterState
raft_mark_unhealthy applied node_id st =
    if applied node_id then (apply_mark_unhealthy node_id st).0 else st

-- The loop over the nodes of the state at the start of the pass.
unfoldable pub mark_stale :
    (Text → Bool) → ℤ → ℤ → Dict Text NodeRecord → ClusterState → ClusterState
unfolding is_stale raft_mark_unhealthy
mark_stale applied now timeout_ns [] st = st
mark_stale applied now timeout_ns ((_, n) ∷ nodes) st = mark_stale applied now timeout_ns nodes (
    if not (is_unhealthy n.status) && is_stale now timeout_ns n
    then raft_mark_unhealthy applied n.id st
    else st)

unfoldable pub check_liveness : (Text → Bool) → ℤ → ℤ → ClusterState → ClusterState
unfolding mark_stale
check_liveness applied now timeout_ns st = mark_stale applied now timeout_ns st.nodes st

-- One tick of the checker: the pass is for the leader alone.
unfoldable pub tick : Bool → (Text → Bool) → ℤ → ℤ → ClusterState → ClusterState
unfolding check_liveness
tick is_leader applied now timeout_ns st =
    if is_leader then check_liveness applied now timeout_ns st else st
