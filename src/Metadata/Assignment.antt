-- ===== src/Metadata/Assignment.antt =====
-- Who owns a shard, after every command of internal/metadata/fsm.go.
pub mod Owners
pub mod Commands
use distributed_log_query_en.Prelude.Order.{sort_by}
use distributed_log_query_en.Prelude.{
  ltb, ◌∙◌, inr, ◌%◌, inl, length, ◌==◌, Bool-cases, suc, arith, ap, or_else, Bool, Key,
}
use distributed_log_query_en.Metadata.Fsm.{
  healthy_ids, elem_at, clear_owners, sort_shards, rebalance_primary, assign, give, update_all,
}
use distributed_log_query_en.Metadata.State.{
  status_is_healthy, zero_shard, zero_node, is_healthy, ShardRecord, NodeRecord, shard_at, node_at,
  ClusterState,
}
use distributed_log_query_en.Prelude.{nat_key, ℕ, ◌≡◌, ◌≢◌, refl, true, false, List, [], ◌∷◌}
use distributed_log_query_en.Prelude.Text.{Text, text_key}
use distributed_log_query_en.Prelude.PathSet.{contains}
use distributed_log_query_en.Prelude.Dict.{get-put, Dict, get, put, keys}

abbrev pub primary_of : ClusterState → ℕ → Text
primary_of st s = (shard_at s st).primary_node

abbrev pub replica_of : ClusterState → ℕ → Text
replica_of st s = (shard_at s st).replica_node

abbrev pub has_shard : ClusterState → ℕ → Bool
has_shard st s = contains (keys st.shards) s

pub keys-update_all {ℓ κ} :
    {K : Type ℓ} {V : Type κ} (f : V → V) (m : Dict K V) → keys (update_all f m) ≡ keys m
unfolding update_all
keys-update_all f [] = refl
keys-update_all f ((j, v) ∷ m) = ap (◌∷◌ j) (keys-update_all f m)

pub contains-keys-put {ℓ κ} :
    {K : Type ℓ} {V : Type κ} ⦃k : Key K⦄ (a b : K) (v : V) (m : Dict K V)
    → contains (keys m) b ≡ true
    → contains (keys (put a v m)) b ≡ true
unfolding put contains
contains-keys-put a b v [] h = cc h
contains-keys-put a b v ((j, w) ∷ m) h = ground (arith, contains-keys-put a b v m)

pub update_all-node :
    (f : NodeRecord → NodeRecord) (m : Dict Text NodeRecord) (h : Text)
    → ((n : NodeRecord) → (f n).status ≡ n.status)
    → (or_else (get h (update_all f m)) zero_node).status ≡ (or_else (get h m) zero_node).status
unfolding update_all get
update_all-node f [] h e = refl
update_all-node f ((j, n) ∷ m) h e = elim (Bool-cases (j == h)) [
  | inl here ↦ rw here (e n)
  | inr ne ↦ rw ne (update_all-node f m h e)
]

pub update_all-shard :
    (f : ShardRecord → ShardRecord) (m : Dict ℕ ShardRecord) (s : ℕ)
    → contains (keys m) s ≡ true
    → or_else (get s (update_all f m)) zero_shard ≡ f (or_else (get s m) zero_shard)
unfolding update_all get contains
update_all-shard f [] s h = cc h
update_all-shard f ((j, sr) ∷ m) s h = elim (Bool-cases (j == s)) [
  | inl here ↦ rw here refl
  | inr ne ↦ rw ne (update_all-shard f m s (ground arith))
]

-- A node's status survives every step of the rebalancing.
pub is_healthy-give :
    (s : ℕ) (n h : Text) (st : ClusterState) → is_healthy (give s n st) h ≡ is_healthy st h
unfolding give node_at
is_healthy-give s n h st = rw get-put (elim (Bool-cases (n == h)) [
  | inl e ↦ rw (e, (text_key.eqb_iff n h).0 e) refl
  | inr e ↦ rw e refl
])

is_healthy-assign :
    (i : ℕ) (ids : List Text) (xs : List ℕ) (st : ClusterState) (h : Text)
    → is_healthy (assign i ids xs st) h ≡ is_healthy st h
unfolding assign
is_healthy-assign i ids [] st h = refl
is_healthy-assign i ids (x ∷ xs) st h =
    is_healthy-assign (suc i) ids xs (give x (elem_at ids (i % length ids)) st) h
    ∙ is_healthy-give x (elem_at ids (i % length ids)) h st

pub is_healthy-rebalance_primary :
    (st : ClusterState) (h : Text) → is_healthy (rebalance_primary st) h ≡ is_healthy st h
unfolding rebalance_primary sort_shards clear_owners node_at
is_healthy-rebalance_primary st h = elim (Bool-cases (length (healthy_ids st) == 0)) [
  | inl none_healthy ↦ rw (none_healthy, rebalance_primary) refl
  | inr some_healthy ↦
      rw (some_healthy, rebalance_primary)
        (ap status_is_healthy (
            update_all-node (λ n. record n { shards = sort_by ltb n.shards })
              (assign 0 (healthy_ids st) (sort_by ltb (keys st.shards)) (clear_owners st)).nodes h
              (λ n. refl))
          ∙ is_healthy-assign 0 (healthy_ids st) (sort_by ltb (keys st.shards)) (clear_owners st) h
          ∙ ap status_is_healthy
              (update_all-node (λ n. record n { shards = [] }) st.nodes h (λ n. refl)))
]
