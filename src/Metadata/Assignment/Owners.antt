-- ===== src/Metadata/Assignment/Owners.antt =====
-- After every command of internal/metadata/fsm.go each shard has a healthy primary, if any node is
-- healthy, and a healthy replica beside it, if there is another.
use distributed_log_query_en.Prelude.Order.{sort_by, contains-sort_by}
use distributed_log_query_en.Metadata.Assignment.{
  keys-update_all, contains-keys-put, has_shard, primary_of,
}
use distributed_log_query_en.Metadata.State.{
  zero_shard, is_healthy, ClusterState, shard_at, node_at,
}
use distributed_log_query_en.Metadata.Fsm.{
  first_other, clear_owners, sort_shards, rebalance_primary, assign, give, elem_at, healthy_ids,
}
use distributed_log_query_en.Prelude.{
  or_else, ap, ◌⊎◌, all_pass, ◌∙◌, sym, nat_key, ltb, zero, inr, Option-cases, inl, ◌%◌, ==_refl,
  Bool-cases, suc, ◌==◌, if◌then◌else◌, arith, length, ◌<◌, ℕ, ◌≡◌, refl, true, false, List, [],
  ◌∷◌,
}
use distributed_log_query_en.Prelude.Text.{Text, text_key}
use distributed_log_query_en.Prelude.PathSet.{contains-keep, contains}
use distributed_log_query_en.Prelude.Dict.{keys-get, get-put, get, keys}

pub contains-healthy_ids :
    (st : ClusterState) (h : Text) → contains (healthy_ids st) h ≡ is_healthy st h
unfolding healthy_ids node_at
contains-healthy_ids st h =
    rw (contains-sort_by, contains-keep)
      (elim (Option-cases (get h st.nodes)) [
        | inl absent ↦ rw absent refl
        | inr (n, known) ↦ rw (keys-get h n st.nodes known) (ground arith)
      ])

pub contains-elem_at : (xs : List Text) (i : ℕ) → i < length xs → contains xs (elem_at xs i) ≡ true
unfolding contains elem_at
contains-elem_at [] i h = absurd (omega arith)
contains-elem_at (x ∷ xs) zero h = ground (arith, ==_refl x)
contains-elem_at (x ∷ xs) (suc i) h = ground (arith, contains-elem_at xs i (omega arith))

primary_of-give :
    (x s : ℕ) (n : Text) (st : ClusterState)
    → primary_of (give x n st) s ≡ (if x == s then n else primary_of st s)
unfolding give shard_at
primary_of-give x s n st =
    ap (λ o. (or_else o zero_shard).primary_node)
      (get-put x s (record (shard_at x st) { primary_node = n }) st.shards)
    ∙ elim (Bool-cases (x == s)) [ inl e ↦ rw e refl | inr e ↦ rw e refl ]

-- A shard that a healthy node owns stays with healthy nodes.
assign-keeps_owner :
    (i : ℕ) (ids : List Text) (xs : List ℕ) (st : ClusterState) (s : ℕ)
    → (length ids == 0) ≡ false
    → contains ids (primary_of st s) ≡ true
    → contains ids (primary_of (assign i ids xs st) s) ≡ true
unfolding assign
assign-keeps_owner i ids [] st s n h = h
assign-keeps_owner i ids (x ∷ xs) st s n h =
    assign-keeps_owner (suc i) ids xs (give x (elem_at ids (i % length ids)) st) s n
      (rw primary_of-give (ground (arith, contains-elem_at ids (i % length ids) (ground arith))))

-- Every shard of the list gets an owner.
assign-owner :
    (i : ℕ) (ids : List Text) (xs : List ℕ) (st : ClusterState) (s : ℕ)
    → (length ids == 0) ≡ false
    → contains xs s ≡ true
    → contains ids (primary_of (assign i ids xs st) s) ≡ true
unfolding assign contains
assign-owner i ids [] st s n h = cc h
assign-owner i ids (x ∷ xs) st s n h = elim (Bool-cases (x == s)) [
  | inl e ↦
      assign-keeps_owner (suc i) ids xs (give x (elem_at ids (i % length ids)) st) s n
        (rw (primary_of-give, e) (contains-elem_at ids (i % length ids) (ground arith)))
  | inr e ↦
      assign-owner (suc i) ids xs (give x (elem_at ids (i % length ids)) st) s n (ground arith)
]

has_shard-assign :
    (i : ℕ) (ids : List Text) (xs : List ℕ) (st : ClusterState) (s : ℕ)
    → has_shard st s ≡ true
    → has_shard (assign i ids xs st) s ≡ true
unfolding assign give
has_shard-assign i ids [] st s h = h
has_shard-assign i ids (x ∷ xs) st s h =
    has_shard-assign (suc i) ids xs (give x (elem_at ids (i % length ids)) st) s
      (contains-keys-put x s _ st.shards h)

contains-of_no_ids : (xs : List Text) (h : Text) → (length xs == 0) ≡ true → contains xs h ≡ false
unfolding contains
contains-of_no_ids [] h e = refl
contains-of_no_ids (x ∷ xs) h e = absurd (ground arith)

-- What `rebalancePrimary` does for a shard.
pub rebalance_primary-owner :
    (st : ClusterState) (s : ℕ) (h : Text)
    → has_shard st s ≡ true
    → is_healthy st h ≡ true
    → is_healthy st (primary_of (rebalance_primary st) s) ≡ true
unfolding rebalance_primary sort_shards shard_at clear_owners
rebalance_primary-owner st s h k live = elim (Bool-cases (length (healthy_ids st) == 0)) [
  | inl e ↦
      absurd (ground (arith, contains-of_no_ids (healthy_ids st) h e, contains-healthy_ids st h))
  | inr e ↦
      rw (e, rebalance_primary)
        (sym (contains-healthy_ids st _)
          ∙ assign-owner 0 (healthy_ids st) (sort_by ltb (keys st.shards)) (clear_owners st) s e
              (rw contains-sort_by k))
]

pub rebalance_primary-has_shard :
    (st : ClusterState) (s : ℕ) → has_shard st s ≡ true → has_shard (rebalance_primary st) s ≡ true
unfolding rebalance_primary sort_shards clear_owners
rebalance_primary-has_shard st s k = elim (Bool-cases (length (healthy_ids st) == 0)) [
  | inl e ↦ rw (e, rebalance_primary) k
  | inr e ↦
      rw (e, rebalance_primary)
        (has_shard-assign 0 (healthy_ids st) (sort_by ltb (keys st.shards)) (clear_owners st) s
          (rw keys-update_all k))
]

-- The first of the other nodes is one of them and is not the primary, if there is another.
pub first_other_lem :
    (ids : List Text) (p : Text)
    → ((contains ids (first_other ids p) ≡ true) × ((first_other ids p == p) ≡ false))
      ⊎ ((first_other ids p ≡ []) × all_pass (λ h. h == p) ids ≡ true)
unfolding first_other contains all_pass
first_other_lem [] p = inr (refl, refl)
first_other_lem (x ∷ xs) p = elim (Bool-cases (x == p)) [
  | inl e ↦ rw e (elim (first_other_lem xs p) [
    | inl (c, ne) ↦ inl (ground arith, ne)
    | inr (empty, all) ↦ inr (empty, all)
  ])
  | inr e ↦ rw e (inl (ground (arith, ==_refl x), e))
]
