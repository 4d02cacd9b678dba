-- ===== src/Prelude/Dict.antt =====
-- Go's `map[K]V` as an association list. Its order is the order of iteration, which Go leaves open.
use distributed_log_query_en.Prelude.Keys.{Key, ◌==◌}
use distributed_log_query_en.Prelude.Tests.{if◌then◌else◌}
use mathlib.Core.Path.{◌≡◌, refl}
use mathlib.Core.Bool.{true, false}
use distributed_log_query_en.Prelude.PathSet.{contains}
use mathlib.Core.Option.{Option, none, some}
use mathlib.Core.List.{List, [], ◌∷◌}
use native.Mathlib.Omega.{arith}

abbrev pub Dict {ℓ κ} : Type ℓ → Type κ → Type (ℓ ⊔ κ)
Dict K V = List (K × V)

module _ {ℓ κ} {K : Type ℓ} {V : Type κ} ⦃k : Key K⦄ where
  -- v, ok := m[key]
  unfoldable pub get : K → Dict K V → Option V
  get key [] = none
  get key ((j, v) ∷ m) = if j == key then some v else get key m

  -- m[key] = v
  unfoldable pub put : K → V → Dict K V → Dict K V
  put key v [] = (key, v) ∷ []
  put key v ((j, w) ∷ m) = if j == key then (j, v) ∷ m else (j, w) ∷ put key v m

  -- delete(m, key)
  unfoldable pub delete : K → Dict K V → Dict K V
  delete key [] = []
  delete key ((j, w) ∷ m) = if j == key then delete key m else (j, w) ∷ delete key m

  pub get-put :
      (key j : K) (v : V) (m : Dict K V)
      → get j (put key v m) ≡ (if key == j then some v else get j m)
  unfolding get put
  get-put key j v [] = refl
  get-put key j v ((i, w) ∷ m) =
      ground (arith, k.eqb_iff i key, k.eqb_iff i j, k.eqb_iff key j, get-put key j v m)

  pub get-delete :
      (key j : K) (m : Dict K V) → get j (delete key m) ≡ (if key == j then none else get j m)
  unfolding get delete
  get-delete key j [] = ground arith
  get-delete key j ((i, w) ∷ m) =
      ground (arith, k.eqb_iff i key, k.eqb_iff i j, k.eqb_iff key j, get-delete key j m)

abbrev pub keys {ℓ κ} : {K : Type ℓ} {V : Type κ} → Dict K V → List K
keys [] = []
keys ((j, _) ∷ m) = j ∷ keys m

pub ruleset dict_laws = (get-put, get-delete)

module _ {ℓ κ} {K : Type ℓ} {V : Type κ} ⦃k : Key K⦄ where
  pub keys-get :
      (key : K) (v : V) (m : Dict K V) → get key m ≡ some v → contains (keys m) key ≡ true
  unfolding get contains
  keys-get key v [] h = cc
  keys-get key v ((j, w) ∷ m) h = ground (arith, keys-get key v m)

  pub keys-get-none : (key : K) (m : Dict K V) → get key m ≡ none → contains (keys m) key ≡ false
  unfolding get contains
  keys-get-none key [] h = refl
  keys-get-none key ((j, w) ∷ m) h = ground (arith, keys-get-none key m)
