-- ===== src/Metadata/Assignment/Commands.antt =====
-- The commands of internal/metadata/fsm.go and the owners of the shards.
use distributed_log_query_en.Prelude.Int.{ℤ}
use distributed_log_query_en.Prelude.Dict.{get, keys, get-put, put, Dict}
use distributed_log_query_en.Metadata.Assignment.Owners.{
  contains-healthy_ids, first_other_lem, rebalance_primary-owner, rebalance_primary-has_shard,
}
use distributed_log_query_en.Metadata.Assignment.{
  contains-keys-put, is_healthy-rebalance_primary, keys-update_all, update_all-shard, replica_of,
  primary_of, has_shard,
}
use distributed_log_query_en.Metadata.Fsm.{
  unknown_type, malformed_payload, malformed, mark_unhealthy, update_heartbeat, register_node,
  clear_replica, Command, apply_all, new_fsm, new_shards, apply, apply_mark_unhealthy,
  apply_update_heartbeat, apply_register_node, release_primary, rebalance_primary, first_other,
  healthy_ids, assign_replicas,
}
use distributed_log_query_en.Metadata.State.{
  ShardRecord, zero_shard, status_is_healthy, NodeRecord, is_healthy, node_at, shard_at,
  ClusterState,
}
use distributed_log_query_en.Prelude.{
  ==_refl, arith, zero, suc, or_else, Option-cases, Bool-cases, ltb, ap, inr, inl, sym, ◌∙◌, ◌⊎◌,
  ◌==◌, ℕ, ◌≡◌, refl, true, false, List, [], ◌∷◌, nat_key,
}
use distributed_log_query_en.Prelude.Text.{Text, text_key}
use distributed_log_query_en.Prelude.PathSet.{contains-all_pass, contains}

-- The state has the shard. Its primary is a healthy node if any node is. Its replica is another
-- healthy node, or there is no other and the shard has no replica.
pub record IsAssigned (st : ClusterState) (s : ℕ) : Type 0 where
  pub known : has_shard st s ≡ true
  pub owned : (h : Text) → is_healthy st h ≡ true → is_healthy st (primary_of st s) ≡ true
  pub replicated :
      ((is_healthy st (replica_of st s) ≡ true) × ((replica_of st s == primary_of st s) ≡ false))
      ⊎ ((replica_of st s ≡ [])
          × ((h : Text) → is_healthy st h ≡ true → (h == primary_of st s) ≡ true))

shard_at-assign_replicas :
    (st : ClusterState) (s : ℕ)
    → has_shard st s ≡ true
    → shard_at s (assign_replicas st)
      ≡ record (shard_at s st) { replica_node = first_other (healthy_ids st) (primary_of st s) }
unfolding assign_replicas shard_at
shard_at-assign_replicas st s k =
    update_all-shard
      (λ sr. record sr { replica_node = first_other (healthy_ids st) sr.primary_node }) st.shards s
      k

pub is_healthy-assign_replicas :
    (st : ClusterState) (h : Text) → is_healthy (assign_replicas st) h ≡ is_healthy st h
unfolding assign_replicas node_at
is_healthy-assign_replicas st h = refl

-- Rebalancing and assigning replicas gives every shard its owners, whatever they were.
reassign-IsAssigned :
    (st : ClusterState) (s : ℕ)
    → has_shard st s ≡ true
    → IsAssigned (assign_replicas (rebalance_primary st)) s
reassign-IsAssigned st s k =
    let mid = rebalance_primary st in
    let has = rebalance_primary-has_shard st s k in
    let at = shard_at-assign_replicas mid s has in
    let owner : primary_of (assign_replicas mid) s ≡ primary_of mid s =
      ap (λ sr. sr.primary_node) at in
    let copy : replica_of (assign_replicas mid) s
        ≡ first_other (healthy_ids mid) (primary_of mid s) =
      ap (λ sr. sr.replica_node) at in
    record {
      known = unfold assign_replicas in rw keys-update_all has;
      owned = λ h live.
          rw (is_healthy-assign_replicas, owner)
            (is_healthy-rebalance_primary st _
              ∙ rebalance_primary-owner st s h k (
                  sym (is_healthy-assign_replicas mid h ∙ is_healthy-rebalance_primary st h)
                  ∙ live));
      replicated =
          rw (is_healthy-assign_replicas, owner, copy)
            (elim (first_other_lem (healthy_ids mid) (primary_of mid s)) [
              | inl (c, ne) ↦ inl (sym (contains-healthy_ids mid _) ∙ c, ne)
              | inr (gone, all) ↦ inr (
                gone,
                λ h live.
                    contains-all_pass (λ k. k == primary_of mid s) (healthy_ids mid) h all
                      (contains-healthy_ids mid h ∙ sym (is_healthy-assign_replicas mid h) ∙ live),
              )
            ]);
    }

-- Two states with the same shards and the same healthy nodes have the same owners.
IsAssigned-same_shards :
    (st : ClusterState) (nodes : Dict Text NodeRecord) (s : ℕ)
    → ((h : Text) → is_healthy (record st { nodes = nodes }) h ≡ is_healthy st h)
    → IsAssigned st s
    → IsAssigned (record st { nodes = nodes }) s
unfolding shard_at
IsAssigned-same_shards st nodes s h a = record {
  known = a.known;
  owned = λ k live. h _ ∙ a.owned k (sym (h k) ∙ live);
  replicated = elim a.replicated [
    | inl (live, ne) ↦ inl (h _ ∙ live, ne)
    | inr (gone, alone) ↦ inr (gone, λ k live. alone k (sym (h k) ∙ live))
  ];
}

-- A node that is written back with its status is as healthy as before.
is_healthy-put :
    (st : ClusterState) (id h : Text) (n : NodeRecord)
    → n.status ≡ (node_at id st).status
    → is_healthy (record st { nodes = put id n st.nodes }) h ≡ is_healthy st h
unfolding node_at
is_healthy-put st id h n e = rw get-put (elim (Bool-cases (id == h)) [
  | inl same ↦ rw (same, ← (text_key.eqb_iff id h).0 same) (ap status_is_healthy e)
  | inr ne ↦ rw ne refl
])

has_shard-release :
    (ss : List ℕ) (st : ClusterState) (s : ℕ)
    → has_shard st s ≡ true
    → has_shard (release_primary ss st) s ≡ true
unfolding release_primary
has_shard-release [] st s k = k
has_shard-release (x ∷ ss) st s k = has_shard-release ss _ s (contains-keys-put x s _ st.shards k)

register-IsAssigned :
    (id address : Text) (now : ℤ) (st : ClusterState) (s : ℕ)
    → IsAssigned st s
    → IsAssigned (apply_register_node id address now st) s
unfolding apply_register_node
register-IsAssigned id address now st s a = elim (Bool-cases (is_healthy st id)) [
  | inl old ↦
      rw (old, apply_register_node)
        (IsAssigned-same_shards st _ s (λ h. is_healthy-put st id h _ refl) a)
  | inr new ↦ rw (new, apply_register_node) (reassign-IsAssigned _ s a.known)
]

heartbeat-IsAssigned :
    (id : Text) (now : ℤ) (st : ClusterState) (s : ℕ)
    → IsAssigned st s
    → IsAssigned (apply_update_heartbeat id now st).0 s
unfolding apply_update_heartbeat node_at
heartbeat-IsAssigned id now st s a = elim (Option-cases (get id st.nodes)) [
  | inl absent ↦ rw (absent, apply_update_heartbeat) a
  | inr (n, known) ↦
      rw (known, apply_update_heartbeat)
        (IsAssigned-same_shards st _ s
          (λ h. is_healthy-put st id h _ (unfold node_at in rw known refl)) a)
]

mark-IsAssigned :
    (id : Text) (st : ClusterState) (s : ℕ)
    → IsAssigned st s
    → IsAssigned (apply_mark_unhealthy id st).0 s
unfolding apply_mark_unhealthy clear_replica
mark-IsAssigned id st s a = elim (Option-cases (get id st.nodes)) [
  | inl absent ↦ rw (absent, apply_mark_unhealthy) a
  | inr (n, known) ↦
      rw (known, apply_mark_unhealthy)
        (reassign-IsAssigned _ s (rw keys-update_all (has_shard-release n.shards st s a.known)))
]

-- Every command, applied or refused, leaves a shard with its owners.
pub apply-IsAssigned :
    (c : Command) (st : ClusterState) (s : ℕ) → IsAssigned st s → IsAssigned (apply c st).0 s
unfolding apply
apply-IsAssigned malformed st s a = a
apply-IsAssigned malformed_payload st s a = a
apply-IsAssigned unknown_type st s a = a
apply-IsAssigned (register_node id address now) st s a = register-IsAssigned id address now st s a
apply-IsAssigned (update_heartbeat id now) st s a = heartbeat-IsAssigned id now st s a
apply-IsAssigned (mark_unhealthy id) st s a = mark-IsAssigned id st s a

contains-keys-put_self :
    (s : ℕ) (v : ShardRecord) (m : Dict ℕ ShardRecord) → contains (keys (put s v m)) s ≡ true
unfolding put contains
contains-keys-put_self s v [] = ground (arith, ==_refl s)
contains-keys-put_self s v ((j, w) ∷ m) = ground (arith, contains-keys-put_self s v m)

new_shards-lem :
    (n s : ℕ)
    → ltb s n ≡ true
    → (contains (keys (new_shards n)) s ≡ true)
      × ((or_else (get s (new_shards n)) zero_shard).replica_node ≡ [])
unfolding new_shards
new_shards-lem zero s h = absurd (ground arith)
new_shards-lem (suc n) s h =
    let v : ShardRecord = record { shard_id = n; primary_node = []; replica_node = [] } in
    elim (Bool-cases (n == s)) [
      | inl e ↦
          rw (get-put, e, ← (nat_key.eqb_iff n s).0 e)
            (contains-keys-put_self n v (new_shards n), refl)
      | inr e ↦
          let (k, r) = new_shards-lem n s (ground (arith, nat_key.eqb_iff n s)) in
          rw (get-put, e) (contains-keys-put n s v (new_shards n) k, r)
    ]

new_fsm-IsAssigned : (n s : ℕ) → ltb s n ≡ true → IsAssigned (new_fsm n) s
unfolding new_fsm node_at shard_at get
new_fsm-IsAssigned n s h =
    let (k, e) = new_shards-lem n s h in
    record { known = k; owned = λ h live. cc live; replicated = inr (e, λ h live. cc live) }

apply_all-keeps :
    (cs : List Command) (st : ClusterState) (s : ℕ)
    → IsAssigned st s
    → IsAssigned (apply_all cs st) s
unfolding apply_all
apply_all-keeps [] st s a = a
apply_all-keeps (c ∷ cs) st s a = apply_all-keeps cs (apply c st).0 s (apply-IsAssigned c st s a)

-- Whatever the commands of the log, each of the shards that the machine was made with has a healthy
-- primary if any node is healthy, and its replica is another healthy node, or no other is healthy
-- and it has none.
pub apply_all-IsAssigned :
    (total_shards : ℕ) (cs : List Command) (s : ℕ)
    → ltb s total_shards ≡ true
    → IsAssigned (apply_all cs (new_fsm total_shards)) s
apply_all-IsAssigned n cs s h = apply_all-keeps cs (new_fsm n) s (new_fsm-IsAssigned n s h)
