-- ===== src/Metadata/Keyed/Commands.antt =====
-- The writes of internal/metadata/fsm.go keep the maps keyed.
use native.Mathlib.Nat.{mod-lt}
use distributed_log_query_en.Metadata.Assignment.Owners.{contains-elem_at}
use mathlib.Core.Path.{subst}
use distributed_log_query_en.Metadata.Assignment.{is_healthy-give, keys-update_all}
use distributed_log_query_en.Prelude.Dict.{keys-get-none, get, put}
use distributed_log_query_en.Prelude.PathSet.{contains}
use distributed_log_query_en.Metadata.Keyed.{
  ShardKeyed, Distinct-update_all, Distinct-put, Each-get, Each-update_all, Each-put,
  keys-put_known, NodeKeyed, KeyedBy,
}
use distributed_log_query_en.Metadata.Fsm.{elem_at, update_all, assign, give}
use distributed_log_query_en.Prelude.Text.{text_key, Text}
use distributed_log_query_en.Metadata.State.{
  is_healthy, NodeRecord, ShardRecord, shard_at, ClusterState, node_at,
}
use distributed_log_query_en.Prelude.{
  suc, arith, sym, refl, nat_key, ◌%◌, All-append, inr, ◌++◌, ◌∙◌, ap, inl, some, All, Option-cases,
  false, true, ◌==◌, ◌≡◌, length, ℕ, List, [], ◌∷◌,
}

-- A healthy node is there.
pub known_of_healthy :
    (st : ClusterState) (id : Text)
    → is_healthy st id ≡ true
    → (n : NodeRecord) × (get id st.nodes ≡ some n) × (node_at id st ≡ n)
unfolding node_at
known_of_healthy st id h = elim (Option-cases (get id st.nodes)) [
  | inl absent ↦ cc (rw absent at h)
  | inr (n, known) ↦ (n, known, rw (node_at, known) refl)
]

module _ (ks : List ℕ) where
  -- The record of a shard that is there has its number.
  pub shard_at-keyed :
      (st : ClusterState) (s : ℕ)
      → KeyedBy ks st
      → contains ks s ≡ true
      → (shard_at s st).shard_id ≡ s
  unfolding shard_at
  shard_at-keyed st s h k = elim (Option-cases (get s st.shards)) [
    | inl absent ↦ cc (keys-get-none s st.shards absent, h.shard_keys, k)
    | inr (sr, known) ↦ rw (shard_at, known) (Each-get ShardKeyed s sr st.shards known h.shards)
  ]

  pub put_shard-KeyedBy :
      (st : ClusterState) (s : ℕ) (sr : ShardRecord)
      → KeyedBy ks st
      → contains ks s ≡ true
      → sr.shard_id ≡ s
      → KeyedBy ks (record st { shards = put s sr st.shards })
  put_shard-KeyedBy st s sr h k e = record {
    shard_keys =
        keys-put_known s sr st.shards (ap (λ l. contains l s) h.shard_keys ∙ k) ∙ h.shard_keys;
    nodes = h.nodes;
    once = h.once;
    shards = Each-put ShardKeyed s sr st.shards e h.shards;
    shards_once = Distinct-put s sr st.shards h.shards_once;
  }

  pub put_node-KeyedBy :
      (st : ClusterState) (id : Text) (n : NodeRecord)
      → KeyedBy ks st
      → NodeKeyed ks id n
      → KeyedBy ks (record st { nodes = put id n st.nodes })
  put_node-KeyedBy st id n h e = record {
    shard_keys = h.shard_keys;
    nodes = Each-put (NodeKeyed ks) id n st.nodes e h.nodes;
    once = Distinct-put id n st.nodes h.once;
    shards = h.shards;
    shards_once = h.shards_once;
  }

  pub update_nodes-KeyedBy :
      (st : ClusterState) (g : NodeRecord → NodeRecord)
      → KeyedBy ks st
      → ((id : Text) (n : NodeRecord) → NodeKeyed ks id n → NodeKeyed ks id (g n))
      → KeyedBy ks (record st { nodes = update_all g st.nodes })
  update_nodes-KeyedBy st g h f = record {
    shard_keys = h.shard_keys;
    nodes = Each-update_all (NodeKeyed ks) g st.nodes f h.nodes;
    once = Distinct-update_all g st.nodes h.once;
    shards = h.shards;
    shards_once = h.shards_once;
  }

  pub update_shards-KeyedBy :
      (st : ClusterState) (g : ShardRecord → ShardRecord)
      → KeyedBy ks st
      → ((sr : ShardRecord) → (g sr).shard_id ≡ sr.shard_id)
      → KeyedBy ks (record st { shards = update_all g st.shards })
  update_shards-KeyedBy st g h f = record {
    shard_keys = keys-update_all g st.shards ∙ h.shard_keys;
    nodes = h.nodes;
    once = h.once;
    shards = Each-update_all ShardKeyed g st.shards (λ s sr e. f sr ∙ e) h.shards;
    shards_once = Distinct-update_all g st.shards h.shards_once;
  }

  give-KeyedBy :
      (s : ℕ) (id : Text) (st : ClusterState)
      → KeyedBy ks st
      → contains ks s ≡ true
      → is_healthy st id ≡ true
      → KeyedBy ks (give s id st)
  unfolding give
  give-KeyedBy s id st h k live =
      let (n, known, here) = known_of_healthy st id live in
      let (same, mine) = Each-get (NodeKeyed ks) id n st.nodes known h.nodes in
      let written = record n { shards = n.shards ++ s ∷ [] } in
      let st1 = record st { nodes = put id written st.nodes } in
      let keyed =
        put_node-KeyedBy st id written h
          (same, All-append (λ x. contains ks x ≡ true) n.shards (s ∷ []) mine (k, tt)) in
      subst
        (λ m. KeyedBy ks (record {
          nodes = put id (record m { shards = m.shards ++ s ∷ [] }) st.nodes;
          shards = put s (record (shard_at s st) { primary_node = id }) st.shards;
        }))
        (sym here)
        (put_shard-KeyedBy st1 s (record (shard_at s st) { primary_node = id }) keyed k
          (shard_at-keyed st s h k))

  pub assign-KeyedBy :
      (i : ℕ) (ids : List Text) (xs : List ℕ) (st : ClusterState)
      → (length ids == 0) ≡ false
      → KeyedBy ks st
      → All (λ s. contains ks s ≡ true) xs
      → ((id : Text) → contains ids id ≡ true → is_healthy st id ≡ true)
      → KeyedBy ks (assign i ids xs st)
  unfolding assign
  assign-KeyedBy i ids [] st some_ids h mine live = h
  assign-KeyedBy i ids (x ∷ xs) st some_ids h (k, mine) live =
      let id = elem_at ids (i % length ids) in
      let live' =
        live id
          (contains-elem_at ids (i % length ids) (ground (arith, mod-lt i {m = length ids}))) in
      assign-KeyedBy (suc i) ids xs (give x id st) some_ids (give-KeyedBy x id st h k live') mine
        (λ j c. is_healthy-give x id j st ∙ live j c)
