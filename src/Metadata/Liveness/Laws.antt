-- ===== src/Metadata/Liveness/Laws.antt =====
-- Which nodes are healthy after a pass of internal/metadata/liveness.go.
use mathlib.Core.Path.{subst}
use distributed_log_query_en.Prelude.PathSet.{contains}
use distributed_log_query_en.Metadata.Assignment.{is_healthy-rebalance_primary}
use distributed_log_query_en.Metadata.Assignment.Commands.{is_healthy-assign_replicas}
use distributed_log_query_en.Cluster.Routing.{log-NodesKeyed, NodesKeyed}
use distributed_log_query_en.Prelude.Text.{text_key, Text}
use distributed_log_query_en.Metadata.State.{
  unhealthy, zero_node, status_is_healthy, is_healthy, NodeRecord, ClusterState, node_at,
}
use distributed_log_query_en.Prelude.Dict.{keys, get-put, put, Dict, get}
use distributed_log_query_en.Metadata.Liveness.{
  is_stale, is_unhealthy, raft_mark_unhealthy, check_liveness, mark_stale,
}
use distributed_log_query_en.Prelude.Int.{less-sub_int64, sub_int64, less, pos, ℤ}
use distributed_log_query_en.Metadata.Fsm.{
  new_fsm, apply_all, Command, rebalance_primary, clear_replica, apply_mark_unhealthy,
  release_primary,
}
use distributed_log_query_en.Prelude.{
  ap, ◌-◌, ltb, ◌+◌, leb, ◌^◌, ◌<◌, Bool-cases, arith, none, inr, ◌∙◌, ◌||◌, inl, Option-cases,
  or_else, ◌&&◌, refl, true, ◌==◌, not, false, ◌≡◌, Bool, ℕ, List, [], ◌∷◌,
}

pub release_primary-nodes :
    (ss : List ℕ) (st : ClusterState) → (release_primary ss st).nodes ≡ st.nodes
unfolding release_primary
release_primary-nodes [] st = refl
release_primary-nodes (s ∷ ss) st = release_primary-nodes ss _

unknown-unhealthy :
    (id : Text) (st : ClusterState) → get id st.nodes ≡ none → is_healthy st id ≡ false
unfolding node_at
unknown-unhealthy id st absent = rw (node_at, absent) refl

is_healthy-written :
    (id h : Text) (n : NodeRecord) (st : ClusterState)
    → (let released = clear_replica id (release_primary n.shards st) in
        is_healthy
          (record released {
            nodes = put id (record n { shards = []; status = unhealthy }) released.nodes;
          })
          h)
      ≡ (not (id == h) && is_healthy st h)
unfolding clear_replica node_at
is_healthy-written id h n st =
    rw (release_primary-nodes n.shards st, get-put)
      (elim (Bool-cases (id == h)) [ inl e ↦ rw e refl | inr e ↦ rw e refl ])

-- Marking a node makes it unhealthy and no other.
is_healthy-mark_unhealthy :
    (id h : Text) (st : ClusterState)
    → is_healthy (apply_mark_unhealthy id st).0 h ≡ (not (id == h) && is_healthy st h)
unfolding apply_mark_unhealthy clear_replica
is_healthy-mark_unhealthy id h st = elim (Option-cases (get id st.nodes)) [
  | inl absent ↦ ground (arith, absent, text_key.eqb_iff id h, unknown-unhealthy id st absent)
  | inr (n, known) ↦
      let released = clear_replica id (release_primary n.shards st) in
      let written = record released {
        nodes = put id (record n { shards = []; status = unhealthy }) released.nodes;
      } in
      rw (known, apply_mark_unhealthy)
        (is_healthy-assign_replicas (rebalance_primary written) h
          ∙ is_healthy-rebalance_primary written h
          ∙ is_healthy-written id h n st)
]

-- Whether the loop marks the node.
abbrev is_marked : ℤ → ℤ → Dict Text NodeRecord → Text → Bool
is_marked now timeout_ns [] h = false
is_marked now timeout_ns ((_, n) ∷ nodes) h =
    (n.id == h && (not (is_unhealthy n.status) && is_stale now timeout_ns n))
    || is_marked now timeout_ns nodes h

mark_stale-healthy :
    (applied : Text → Bool) (now timeout_ns : ℤ) (nodes : Dict Text NodeRecord) (h : Text)
    (st : ClusterState)
    → ((id : Text) → applied id ≡ true)
    → is_healthy (mark_stale applied now timeout_ns nodes st) h
      ≡ (is_healthy st h && not (is_marked now timeout_ns nodes h))
unfolding mark_stale raft_mark_unhealthy
mark_stale-healthy applied now timeout_ns [] h st takes = ground arith
mark_stale-healthy applied now timeout_ns ((j, n) ∷ nodes) h st takes = ground (
  arith,
  takes n.id,
  mark_stale-healthy applied now timeout_ns nodes h st takes,
  mark_stale-healthy applied now timeout_ns nodes h (apply_mark_unhealthy n.id st).0 takes,
  is_healthy-mark_unhealthy n.id h st,
)

unknown-is_marked :
    (now timeout_ns : ℤ) (nodes : Dict Text NodeRecord) (h : Text)
    → NodesKeyed nodes
    → contains (keys nodes) h ≡ false
    → is_marked now timeout_ns nodes h ≡ false
unfolding contains
unknown-is_marked now timeout_ns [] h keyed away = refl
unknown-is_marked now timeout_ns ((j, n) ∷ nodes) h (same, once, keyed) away = ground (
  arith,
  text_key.eqb_iff n.id h,
  text_key.eqb_iff j h,
  unknown-is_marked now timeout_ns nodes h keyed,
)

is_marked-get :
    (now timeout_ns : ℤ) (nodes : Dict Text NodeRecord) (h : Text)
    → NodesKeyed nodes
    → (status_is_healthy (or_else (get h nodes) zero_node).status
        && not (is_marked now timeout_ns nodes h))
      ≡ (status_is_healthy (or_else (get h nodes) zero_node).status
          && not (is_stale now timeout_ns (or_else (get h nodes) zero_node)))
unfolding get
is_marked-get now timeout_ns [] h keyed = refl
is_marked-get now timeout_ns ((j, n) ∷ nodes) h (same, once, keyed) = elim (Bool-cases (j == h)) [
  | inr ne ↦
      let other : (n.id == h) ≡ false =
        ground (arith, text_key.eqb_iff n.id h, text_key.eqb_iff j h) in
      rw (ne, other) (is_marked-get now timeout_ns nodes h keyed)
  | inl here ↦
      let mine : (n.id == h) ≡ true =
        ground (arith, text_key.eqb_iff n.id h, text_key.eqb_iff j h) in
      let away : contains (keys nodes) h ≡ false =
        subst (λ x. contains (keys nodes) x ≡ false) ((text_key.eqb_iff j h).0 here) once in
      rw (here, mine, unknown-is_marked now timeout_ns nodes h keyed away) (ground arith)
]

check_liveness-is_stale :
    (total_shards : ℕ) (cs : List Command) (applied : Text → Bool) (now timeout_ns : ℤ) (h : Text)
    → ((id : Text) → applied id ≡ true)
    → (let st = apply_all cs (new_fsm total_shards) in
        is_healthy (check_liveness applied now timeout_ns st) h
        ≡ (is_healthy st h && not (is_stale now timeout_ns (node_at h st))))
unfolding check_liveness node_at
check_liveness-is_stale total_shards cs applied now timeout_ns h takes =
    let st = apply_all cs (new_fsm total_shards) in
    mark_stale-healthy applied now timeout_ns st.nodes h st takes
    ∙ is_marked-get now timeout_ns st.nodes h (log-NodesKeyed total_shards cs)

-- After any log, where Raft takes every command of the pass: a node is healthy after a pass of the
-- leader exactly if it was healthy before it and no more nanoseconds than the timeout lie between its
-- last heartbeat and the time of the pass. The two times are int64 values after 1970, and a heartbeat
-- may be later than the pass.
pub check_liveness-healthy :
    (total_shards : ℕ) (cs : List Command) (applied : Text → Bool) (now timeout_ns seen : ℕ)
    (h : Text)
    → ((id : Text) → applied id ≡ true)
    → now < 2 ^ 63
    → seen < 2 ^ 63
    → (node_at h (apply_all cs (new_fsm total_shards))).last_seen ≡ pos seen
    → (let st = apply_all cs (new_fsm total_shards) in
        is_healthy (check_liveness applied (pos now) (pos timeout_ns) st) h
        ≡ (is_healthy st h && leb now (seen + timeout_ns)))
unfolding is_stale
check_liveness-healthy total_shards cs applied now timeout_ns seen h takes small past last =
    let st = apply_all cs (new_fsm total_shards) in
    let old : is_stale (pos now) (pos timeout_ns) (node_at h st) ≡ ltb timeout_ns (now - seen) =
      ap (λ z. less (pos timeout_ns) (sub_int64 (pos now) z)) last
      ∙ less-sub_int64 now seen timeout_ns small past in
    check_liveness-is_stale total_shards cs applied (pos now) (pos timeout_ns) h takes
    ∙ ap (λ b. is_healthy st h && not b) old
    ∙ ap (λ b. is_healthy st h && b) (ground arith)
