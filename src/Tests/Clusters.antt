-- ===== src/Tests/Clusters.antt =====
-- Runs of the cluster client, of the liveness check and of the metadata service at concrete inputs.
use distributed_log_query_en.Cluster.Heartbeat.{new_heartbeat_sender, run}
use distributed_log_query_en.Cluster.Heartbeat.Laws.{run-healthy, IsLed}
use distributed_log_query_en.Metadata.Keyed.Log.{log-KeyedBy}
use distributed_log_query_en.Metadata.Keyed.{KeyedBy}
use distributed_log_query_en.Metadata.Server.Laws.{register_node-found}
use distributed_log_query_en.Metadata.Liveness.Laws.{check_liveness-healthy}
use distributed_log_query_en.Prelude.Result.{ok}
use distributed_log_query_en.Cluster.Routing.{state_reader-wire}
use distributed_log_query_en.Metadata.Liveness.{check_liveness}
use distributed_log_query_en.Cluster.Wire.{shard_numbers, get_cluster_state, proto_to_cluster_state}
use distributed_log_query_en.Prelude.Dict.{keys, get}
use distributed_log_query_en.Cluster.{node_address, shard_owners}
use distributed_log_query_en.Prelude.Int.{pos}
use distributed_log_query_en.Rpc.{Code}
use distributed_log_query_en.Prelude.Text.{text_key, text_eqb, Text, text}
use distributed_log_query_en.Metadata.State.{node_at, is_healthy, ClusterState, NodeRecord}
use distributed_log_query_en.Metadata.Server.{register_node, committed, Raft}
use distributed_log_query_en.Metadata.Fsm.{new_shards, mark_unhealthy, new_fsm, Command, apply_all}
use distributed_log_query_en.Cluster.Client.{rotates, addr_at, ClusterClient}
use distributed_log_query_en.Prelude.{
  ◌+◌, leb, sym, or_else, ap, refl, inr, arith, inl, not, Bool-cases, ◌&&◌, none, ◌==◌, ◌≡◌,
  if◌then◌else◌, Option, some, true, List, ℕ, [], ◌∷◌,
}

-- Two coordinators, of which the second leads.
abbrev client : ClusterClient
client = record {
  addrs = text "c1" ∷ text "c2" ∷ [];
  idx = 0;
  conn = some (text "c1");
  node_id = text "n1";
}

unfoldable answers : ℕ → Text → Option Code
answers n a = if a == text "c2" then none else some Code.failed_precondition

IsPatient-answers : (n : ℕ) (a : Text) (code : Code) → answers n a ≡ some code → rotates code ≡ true
unfolding answers rotates
IsPatient-answers n a code h = elim (Bool-cases (a == text "c2")) [
  | inl e ↦ cc (rw e at h)
  | inr e ↦ ap (λ o. rotates (or_else o Code.failed_precondition)) (sym (rw e at h))
]

IsLed-client : IsLed (λ a. true) (λ a. refl) client.addrs answers
unfolding answers addr_at text_eqb
IsLed-client = record {
  patient = IsPatient-answers;
  leader = 1;
  here = omega arith;
  leads = λ n. refl;
}

run-healthy_example :
    (run (λ a. true) (answers ∷ answers ∷ []) (new_heartbeat_sender client)).health ≡ some true
unfolding addr_at
run-healthy_example =
    run-healthy (λ a. true) (λ a. refl) answers (answers ∷ []) (new_heartbeat_sender client)
      (record { in_range = omega arith; open_at = refl }) (IsLed-client, (IsLed-client, tt))

-- Two nodes join.
abbrev joins : List Command
joins =
    Command.register_node (text "n1") (text "a1") (pos 1)
    ∷ Command.register_node (text "n2") (text "a2") (pos 8)
    ∷ []

state_reader-wire_example :
    let st = apply_all joins (new_fsm 4) in
    ((shard : ℕ)
      → shard_owners (proto_to_cluster_state (get_cluster_state st)) (pos shard)
        ≡ shard_owners st (pos shard))
    × ((node_id : Text)
        → node_address (proto_to_cluster_state (get_cluster_state st)) node_id
          ≡ node_address st node_id)
state_reader-wire_example = state_reader-wire 4 joins (omega arith)

seen_n2 : (node_at (text "n2") (apply_all joins (new_fsm 4))).last_seen ≡ pos 8
unfolding distributed_log_query_en.Prelude.Text.text_less node_at apply_all new_fsm
    distributed_log_query_en.Metadata.State.shard_at distributed_log_query_en.Prelude.Dict.get
    distributed_log_query_en.Prelude.Dict.put text_eqb
    distributed_log_query_en.Prelude.Order.sort_by distributed_log_query_en.Prelude.keep
    distributed_log_query_en.Metadata.Fsm.apply
    distributed_log_query_en.Metadata.Fsm.apply_register_node
    distributed_log_query_en.Metadata.Fsm.rebalance_primary
    distributed_log_query_en.Metadata.Fsm.assign_replicas
    distributed_log_query_en.Metadata.Fsm.healthy_ids distributed_log_query_en.Metadata.Fsm.assign
    distributed_log_query_en.Metadata.Fsm.give distributed_log_query_en.Metadata.Fsm.elem_at
    distributed_log_query_en.Metadata.Fsm.clear_owners
    distributed_log_query_en.Metadata.Fsm.sort_shards
    distributed_log_query_en.Metadata.Fsm.update_all
    distributed_log_query_en.Metadata.Fsm.first_other
    distributed_log_query_en.Metadata.Fsm.new_shards
seen_n2 = refl

-- The second of the two nodes, of which the first was not heard of for too long.
check_liveness-healthy_example :
    let st = apply_all joins (new_fsm 4) in
    is_healthy (check_liveness (λ id. true) (pos 10) (pos 5) st) (text "n2")
    ≡ (is_healthy st (text "n2") && leb 10 (8 + 5))
check_liveness-healthy_example =
    check_liveness-healthy 4 joins (λ id. true) 10 5 8 (text "n2") (λ id. refl) (omega arith)
      (omega arith) seen_n2

abbrev leading : Raft
leading = record { is_leader = true; outcome = committed; before = joins }

register_node-found_example :
    (n : NodeRecord) × (seen : ClusterState) × (get (text "n3") seen.nodes ≡ some n)
    × (register_node leading
          (mark_unhealthy (text "n3") ∷ [])
          (pos 9)
          (text "n3")
          (text "a3")
          (new_fsm 4)
        ≡ (ok (shard_numbers n.shards), seen))
register_node-found_example =
    register_node-found leading (mark_unhealthy (text "n3") ∷ []) (pos 9) (text "n3") (text "a3")
      (new_fsm 4) (λ h. cc h) (λ h. cc h) refl refl

log-KeyedBy_example : KeyedBy (keys (new_shards 4)) (apply_all joins (new_fsm 4))
log-KeyedBy_example = log-KeyedBy 4 joins
