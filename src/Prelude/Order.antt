-- ===== src/Prelude/Order.antt =====
-- `sort.Slice` and `sort.Strings` by a Boolean `less`, as a stable insertion sort. Where `less` is
-- a strict total order the result is the only sorted rearrangement, whatever the algorithm.
use mathlib.Core.Path.{◌≡◌, refl}
use mathlib.Core.Bool.{Bool, true, false, ◌||◌}
use mathlib.Core.List.{List, [], ◌∷◌, Perm}
use mathlib.Core.List.Perm
use mathlib.Core.Logic.{inl, inr}
use native.Mathlib.Omega.{arith}
use Prim.Native.Nat.{ℕ, zero, suc}
use distributed_log_query_en.Prelude.Tests.{if◌then◌else◌, Bool-cases}
use distributed_log_query_en.Prelude.Lists.{take, drop, All, length}
use distributed_log_query_en.Prelude.Keys.{Key, ◌==◌}
use distributed_log_query_en.Prelude.PathSet.{contains}

module _ {ℓ} {A : Type ℓ} (lt : A → A → Bool) where
  unfoldable pub insert_by : A → List A → List A
  insert_by x [] = x ∷ []
  insert_by x (y ∷ ys) = if lt y x then y ∷ insert_by x ys else x ∷ y ∷ ys

  unfoldable pub sort_by : List A → List A
  unfolding insert_by
  sort_by [] = []
  sort_by (x ∷ xs) = insert_by x (sort_by xs)

  -- No later element is less than an earlier one.
  abbrev pub IsSorted : List A → Type 0
  IsSorted [] = Unit
  IsSorted (x ∷ xs) = All (λ y. lt y x ≡ false) xs × IsSorted xs

  abbrev pub IsBelow : A → List A → Type 0
  IsBelow x ys = All (λ y. lt y x ≡ false) ys

  insert_by-All : (P : A → Type 0) (x : A) (ys : List A) → P x → All P ys → All P (insert_by x ys)
  unfolding insert_by
  insert_by-All P x [] p h = (p, tt)
  insert_by-All P x (y ∷ ys) p (q, h) = elim (Bool-cases (lt y x)) [
    | inl e ↦ rw e (q, insert_by-All P x ys p h)
    | inr e ↦ rw e (p, (q, h))
  ]

  pub sort_by-All : (P : A → Type 0) (xs : List A) → All P xs → All P (sort_by xs)
  unfolding sort_by
  sort_by-All P [] h = tt
  sort_by-All P (x ∷ xs) (p, h) = insert_by-All P x (sort_by xs) p (sort_by-All P xs h)

  pub length-insert_by : (x : A) (ys : List A) → length (insert_by x ys) ≡ suc (length ys)
  unfolding insert_by
  length-insert_by x [] = refl
  length-insert_by x (y ∷ ys) = ground (arith, length-insert_by x ys)

  pub length-sort_by : (xs : List A) → length (sort_by xs) ≡ length xs
  unfolding sort_by
  length-sort_by [] = refl
  length-sort_by (x ∷ xs) = ground (arith, length-insert_by x (sort_by xs), length-sort_by xs)

  insert_by-perm : (x : A) (ys : List A) → Perm (insert_by x ys) (x ∷ ys)
  unfolding insert_by
  insert_by-perm x [] = Perm.refl (x ∷ [])
  insert_by-perm x (y ∷ ys) = elim (Bool-cases (lt y x)) [
    | inl e ↦ rw e (Perm.trans (Perm.cons y (insert_by-perm x ys)) (Perm.swap x y ys))
    | inr e ↦ rw e (Perm.refl (x ∷ y ∷ ys))
  ]

  pub sort_by-perm : (xs : List A) → Perm (sort_by xs) xs
  unfolding sort_by
  sort_by-perm [] = Perm.refl []
  sort_by-perm (x ∷ xs) = Perm.trans (insert_by-perm x (sort_by xs)) (Perm.cons x (sort_by-perm xs))

  contains-insert_by :
      ⦃k : Key A⦄ (x a : A) (ys : List A) → contains (insert_by x ys) a ≡ (x == a || contains ys a)
  unfolding insert_by contains
  contains-insert_by x a [] = refl
  contains-insert_by x a (y ∷ ys) = ground (arith, contains-insert_by x a ys)

  pub contains-sort_by : ⦃k : Key A⦄ (a : A) (xs : List A) → contains (sort_by xs) a ≡ contains xs a
  unfolding sort_by contains
  contains-sort_by a [] = refl
  contains-sort_by a (x ∷ xs) =
      ground (arith, contains-insert_by x a (sort_by xs), contains-sort_by a xs)

-- A strict weak order: what sorting needs. Values that it does not tell apart may differ.
pub record IsWeakOrder {ℓ} {A : Type ℓ} (lt : A → A → Bool) : Type ℓ where
  pub asymm : (a b : A) → lt a b ≡ true → lt b a ≡ false
  pub not_less_trans : (x y z : A) → lt y x ≡ false → lt z y ≡ false → lt z x ≡ false

module _ {ℓ} {A : Type ℓ} (lt : A → A → Bool) (o : IsWeakOrder lt) where
  less_trans : (a b c : A) → lt a b ≡ true → lt b c ≡ true → lt a c ≡ true
  less_trans a b c h k = elim (Bool-cases (lt a c)) [
    | inl ac ↦ ac
    | inr ac ↦ cc (o.not_less_trans b c a (o.asymm b c k) ac)
  ]

  IsBelow-trans : (x y : A) (zs : List A) → lt y x ≡ false → IsBelow lt y zs → IsBelow lt x zs
  IsBelow-trans x y [] p h = tt
  IsBelow-trans x y (z ∷ zs) p (q, h) = (o.not_less_trans x y z p q, IsBelow-trans x y zs p h)

  insert_by-IsSorted : (x : A) (ys : List A) → IsSorted lt ys → IsSorted lt (insert_by lt x ys)
  unfolding insert_by
  insert_by-IsSorted x [] h = (tt, tt)
  insert_by-IsSorted x (y ∷ ys) (b, h) = elim (Bool-cases (lt y x)) [
    | inl e ↦
        rw e
          (insert_by-All lt (λ z. lt z y ≡ false) x ys (o.asymm y x e) b, insert_by-IsSorted x ys h)
    | inr e ↦ rw e ((e, IsBelow-trans x y ys e b), (b, h))
  ]

  pub sort_by-IsSorted : (xs : List A) → IsSorted lt (sort_by lt xs)
  unfolding sort_by
  sort_by-IsSorted [] = tt
  sort_by-IsSorted (x ∷ xs) = insert_by-IsSorted x (sort_by lt xs) (sort_by-IsSorted xs)

  -- Insertions of values that the order tells apart commute.
  pub insert_by_comm :
      (x y : A) (zs : List A)
      → (lt x y ≡ false → lt y x ≡ false → x ≡ y)
      → insert_by lt x (insert_by lt y zs) ≡ insert_by lt y (insert_by lt x zs)
  unfolding insert_by
  insert_by_comm x y [] t = ground (arith, o.asymm x y)
  insert_by_comm x y (z ∷ zs) t = ground (
    arith,
    insert_by_comm x y zs t,
    o.asymm x y,
    less_trans z x y,
    less_trans z y x,
    o.not_less_trans y x z,
    o.not_less_trans x y z,
  )

  pub sort_by_of_sorted : (xs : List A) → IsSorted lt xs → sort_by lt xs ≡ xs
  unfolding sort_by insert_by
  sort_by_of_sorted [] h = refl
  sort_by_of_sorted (x ∷ []) h = refl
  sort_by_of_sorted (x ∷ y ∷ ys) ((p, b), h) = rw (sort_by_of_sorted (y ∷ ys) h, p)

module _ {ℓ} {A : Type ℓ} (lt : A → A → Bool) where
  All-take : (P : A → Type 0) (n : ℕ) (xs : List A) → All P xs → All P (take n xs)
  All-take P zero xs h = tt
  All-take P (suc n) [] h = tt
  All-take P (suc n) (x ∷ xs) (p, h) = (p, All-take P n xs h)

  pub IsSorted-take : (n : ℕ) (xs : List A) → IsSorted lt xs → IsSorted lt (take n xs)
  IsSorted-take zero xs h = tt
  IsSorted-take (suc n) [] h = tt
  IsSorted-take (suc n) (x ∷ xs) (b, h) =
      (All-take (λ y. lt y x ≡ false) n xs b, IsSorted-take n xs h)

  pub IsSorted-drop : (n : ℕ) (xs : List A) → IsSorted lt xs → IsSorted lt (drop n xs)
  IsSorted-drop zero xs h = h
  IsSorted-drop (suc n) [] h = tt
  IsSorted-drop (suc n) (x ∷ xs) (b, h) = IsSorted-drop n xs h
