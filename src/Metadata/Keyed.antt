-- ===== src/Metadata/Keyed.antt =====
-- The maps of internal/metadata/fsm.go keep each record under the record's own ID, and a node is
-- given no shard that the cluster does not have.
pub mod Commands
pub mod Log
use mathlib.Core.Path.{subst}
use distributed_log_query_en.Metadata.Assignment.{keys-update_all}
use distributed_log_query_en.Metadata.State.{NodeRecord, ClusterState, ShardRecord}
use distributed_log_query_en.Prelude.Text.{text_key, Text}
use distributed_log_query_en.Prelude.PathSet.{contains}
use distributed_log_query_en.Metadata.Fsm.{update_all}
use distributed_log_query_en.Prelude.Dict.{keys, get, put, Dict}
use distributed_log_query_en.Prelude.{
  refl, sym, inr, arith, nat_key, ◌||◌, inl, All, ◌∙◌, true, some, ◌==◌, false, ◌≡◌, Bool-cases, ap,
  ℕ, List, Key, [], ◌∷◌,
}

-- What holds of each key with its value.
abbrev pub Each {ℓ κ} : {K : Type ℓ} {V : Type κ} → (K → V → Type 0) → Dict K V → Type 0
Each P [] = Unit
Each P ((j, v) ∷ m) = P j v × Each P m

abbrev pub Distinct {ℓ κ} : {K : Type ℓ} {V : Type κ} ⦃k : Key K⦄ → Dict K V → Type 0
Distinct [] = Unit
Distinct ((j, v) ∷ m) = (contains (keys m) j ≡ false) × Distinct m

pub Each-update_all {ℓ κ} :
    {K : Type ℓ} {V : Type κ} (P : K → V → Type 0) (g : V → V) (m : Dict K V)
    → ((j : K) (v : V) → P j v → P j (g v))
    → Each P m
    → Each P (update_all g m)
unfolding update_all
Each-update_all P g [] f h = tt
Each-update_all P g ((j, v) ∷ m) f (p, h) = (f j v p, Each-update_all P g m f h)

module _ {ℓ κ} {K : Type ℓ} {V : Type κ} ⦃k : Key K⦄ where
  pub Each-put :
      (P : K → V → Type 0) (key : K) (v : V) (m : Dict K V)
      → P key v
      → Each P m
      → Each P (put key v m)
  unfolding put
  Each-put P key v [] p h = (p, tt)
  Each-put P key v ((j, w) ∷ m) p (q, h) = elim (Bool-cases (j == key)) [
    | inl e ↦ rw e (subst (λ i. P i v) (sym ((k.eqb_iff j key).0 e)) p, h)
    | inr e ↦ rw e (q, Each-put P key v m p h)
  ]

  pub Each-get :
      (P : K → V → Type 0) (key : K) (v : V) (m : Dict K V)
      → get key m ≡ some v
      → Each P m
      → P key v
  unfolding get
  Each-get P key v [] e h = cc
  Each-get P key v ((j, w) ∷ m) e (q, h) = elim (Bool-cases (j == key)) [
    | inl here ↦
        let same : w ≡ v = ground arith in
        subst (λ i. P i v) ((k.eqb_iff j key).0 here) (subst (P j) same q)
    | inr ne ↦ Each-get P key v m (rw ne at e) h
  ]

  contains-keys-put :
      (key j : K) (v : V) (m : Dict K V)
      → contains (keys (put key v m)) j ≡ (key == j || contains (keys m) j)
  unfolding put contains
  contains-keys-put key j v [] = refl
  contains-keys-put key j v ((i, w) ∷ m) =
      ground (arith, contains-keys-put key j v m, k.eqb_iff i key)

  pub Distinct-put : (key : K) (v : V) (m : Dict K V) → Distinct m → Distinct (put key v m)
  unfolding put contains
  Distinct-put key v [] h = (refl, tt)
  Distinct-put key v ((j, w) ∷ m) (once, h) = elim (Bool-cases (j == key)) [
    | inl e ↦ rw e (once, h)
    | inr e ↦ rw e (
      contains-keys-put key j v m ∙ ground (arith, k.eqb_iff key j, k.eqb_iff j key),
      Distinct-put key v m h,
    )
  ]

  pub All-keys_put :
      (P : K → Type 0) (key : K) (v : V) (m : Dict K V)
      → P key
      → All P (keys m)
      → All P (keys (put key v m))
  unfolding put
  All-keys_put P key v [] p h = (p, tt)
  All-keys_put P key v ((j, w) ∷ m) p (q, h) = elim (Bool-cases (j == key)) [
    | inl e ↦ rw e (q, h)
    | inr e ↦ rw e (q, All-keys_put P key v m p h)
  ]

  -- A write to a key that is there adds no key.
  pub keys-put_known :
      (key : K) (v : V) (m : Dict K V) → contains (keys m) key ≡ true → keys (put key v m) ≡ keys m
  unfolding put contains
  keys-put_known key v [] h = cc
  keys-put_known key v ((j, w) ∷ m) h = elim (Bool-cases (j == key)) [
    | inl e ↦ rw e refl
    | inr e ↦ rw e (ap (◌∷◌ j) (keys-put_known key v m (ground arith)))
  ]

pub Distinct-update_all {ℓ κ} :
    {K : Type ℓ} {V : Type κ} ⦃k : Key K⦄ (g : V → V) (m : Dict K V)
    → Distinct m
    → Distinct (update_all g m)
unfolding update_all
Distinct-update_all g [] h = tt
Distinct-update_all g ((j, v) ∷ m) (once, h) =
    (ap (λ ks. contains ks j) (keys-update_all g m) ∙ once, Distinct-update_all g m h)

-- Of a node: it stands under its ID, and its shards are among the given ones.
abbrev pub NodeKeyed : List ℕ → Text → NodeRecord → Type 0
NodeKeyed ks id n = (n.id ≡ id) × All (λ s. contains ks s ≡ true) n.shards

abbrev pub ShardKeyed : ℕ → ShardRecord → Type 0
ShardKeyed s sr = sr.shard_id ≡ s

-- The state has exactly the shards of the list.
pub record KeyedBy (ks : List ℕ) (st : ClusterState) : Type 0 where
  pub shard_keys : keys st.shards ≡ ks
  pub nodes : Each (NodeKeyed ks) st.nodes
  pub once : Distinct st.nodes
  pub shards : Each ShardKeyed st.shards
  pub shards_once : Distinct st.shards
