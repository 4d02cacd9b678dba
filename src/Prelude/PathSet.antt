-- ===== src/Prelude/PathSet.antt =====
-- Go's `map[K]struct{}` as a list of members, with the laws of its membership test.
use distributed_log_query_en.Prelude.Keys.{Key, ◌==◌}
use distributed_log_query_en.Prelude.Tests.{Bool-cases, if◌then◌else◌}
use distributed_log_query_en.Prelude.Lists.{All, all_pass, last?, keep}
use mathlib.Core.Path.{subst, ◌≡◌, refl}
use mathlib.Core.Bool.{Bool, true, false, not, ◌&&◌, ◌||◌}
use mathlib.Core.Option.{some}
use mathlib.Core.Logic.{inl, inr}
use mathlib.Core.List.{List, [], ◌∷◌, ◌++◌}
use native.Mathlib.Omega.{arith}

module _ {ℓ} {K : Type ℓ} ⦃k : Key K⦄ where
  -- _, ok := set[a]
  unfoldable pub contains : List K → K → Bool
  contains [] a = false
  contains (x ∷ xs) a = x == a || contains xs a

  -- set[a] = struct{}{}
  unfoldable pub insert : K → List K → List K
  insert a xs = if contains xs a then xs else a ∷ xs

  -- delete(set, a)
  unfoldable pub remove : K → List K → List K
  remove a xs = keep (λ x. not (x == a)) xs

  pub contains-insert :
      (a b : K) (xs : List K) → contains (insert a xs) b ≡ (a == b || contains xs b)
  unfolding insert contains
  contains-insert a b xs = ground (arith, k.eqb_iff a b)

  pub contains-keep :
      (p : K → Bool) (a : K) (xs : List K) → contains (keep p xs) a ≡ (p a && contains xs a)
  unfolding contains keep
  contains-keep p a [] = ground arith
  contains-keep p a (x ∷ xs) = ground (arith, k.eqb_iff x a, contains-keep p a xs)

  pub contains-remove :
      (a b : K) (xs : List K) → contains (remove a xs) b ≡ (not (b == a) && contains xs b)
  unfolding remove
  contains-remove a b xs = contains-keep (λ x. not (x == a)) b xs

  pub contains-append :
      (xs ys : List K) (a : K) → contains (xs ++ ys) a ≡ (contains xs a || contains ys a)
  unfolding contains
  contains-append [] ys a = refl
  contains-append (x ∷ xs) ys a = ground (arith, contains-append xs ys a)

  pub contains-last? : (xs : List K) (a : K) → last? xs ≡ some a → contains xs a ≡ true
  unfolding last? contains
  contains-last? [] a h = cc
  contains-last? (x ∷ []) a h = ground (arith, k.eqb_iff x a)
  contains-last? (x ∷ y ∷ xs) a h = ground (arith, contains-last? (y ∷ xs) a h)

  pub All-contains {κ} :
      (P : K → Type κ) (xs : List K) (a : K) → All P xs → contains xs a ≡ true → P a
  unfolding contains
  All-contains P [] a h m = absurd (ground arith)
  All-contains P (x ∷ xs) a (p, h) m = elim (Bool-cases (x == a)) [
    | inl e ↦ subst P ((k.eqb_iff x a).0 e) p
    | inr e ↦ All-contains P xs a h (ground arith)
  ]

  pub contains-all_pass :
      (p : K → Bool) (xs : List K) (a : K)
      → all_pass p xs ≡ true
      → contains xs a ≡ true
      → p a ≡ true
  unfolding contains all_pass
  contains-all_pass p [] a h m = absurd (ground arith)
  contains-all_pass p (x ∷ xs) a h m = ground (arith, k.eqb_iff x a, contains-all_pass p xs a)
