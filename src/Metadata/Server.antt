-- ===== src/Metadata/Server.antt =====
-- internal/metadata/server.go: the gRPC service of a coordinator. `Raft` says what its Raft library
-- makes of one command: whether this coordinator leads, how `raft.Apply` ends, and the commands of
-- others that the log has before this one. `GetClusterState` stands with the messages of the cluster.
use distributed_log_query_en.Prelude.Dict.{get}
use distributed_log_query_en.Prelude.Result.{ok, err, Result}
use distributed_log_query_en.Rpc.{Code}
use distributed_log_query_en.Prelude.Text.{text_key, Text}
use distributed_log_query_en.Metadata.State.{ClusterState}
use distributed_log_query_en.Prelude.Int.{ℤ}
use distributed_log_query_en.Cluster.Wire.{shard_numbers}
use distributed_log_query_en.Metadata.Fsm.{update_heartbeat, apply, apply_all, FsmError, Command}
use distributed_log_query_en.Prelude.{
  ◌||◌, [], none, ◌==◌, not, if◌then◌else◌, some, List, Option, Bool,
}
pub mod Laws

pub data Outcome : Type 0 where
  committed lost_leadership not_applied : Outcome

pub record Raft : Type 0 where
  pub is_leader : Bool
  pub outcome : Outcome
  pub before : List Command

abbrev pub fsm_code : Option FsmError → Option Code
fsm_code none = none
fsm_code (some _) = some Code.internal

unfoldable pub apply_command : Raft → Command → ClusterState → Option Code × ClusterState
apply_command raft cmd st =
    if not raft.is_leader
    then (some Code.failed_precondition, st)
    else let st' = apply_all raft.before st in
      elim raft.outcome [
        | lost_leadership ↦ (some Code.failed_precondition, st')
        | not_applied ↦ (some Code.internal, st')
        | committed ↦ let (st'', failed) = apply cmd st' in (fsm_code failed, st'')
      ]

-- The answer is made from the state that is read after the command, when more commands may have been
-- applied.
unfoldable pub registered : Text → ClusterState → Result Code (List ℤ)
unfolding shard_numbers
registered node_id seen = elim (get node_id seen.nodes) [
  | none ↦ err Code.internal
  | some n ↦ ok (shard_numbers n.shards)
]

unfoldable pub register_node :
    Raft → List Command → ℤ → Text → Text → ClusterState → Result Code (List ℤ) × ClusterState
unfolding apply_command registered
register_node raft later now node_id grpc_address st =
    if node_id == [] || grpc_address == []
    then (err Code.invalid_argument, st)
    else let (failed, st') =
        apply_command raft (Command.register_node node_id grpc_address now) st in
      elim failed [
        | some code ↦ (err code, st')
        | none ↦ let seen = apply_all later st' in (registered node_id seen, seen)
      ]

unfoldable pub heartbeat : Raft → ℤ → Text → ClusterState → Option Code × ClusterState
unfolding apply_command
heartbeat raft now node_id st =
    if node_id == []
    then (some Code.invalid_argument, st)
    else apply_command raft (update_heartbeat node_id now) st
