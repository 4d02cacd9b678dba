-- ===== src/Entries/Unique.antt =====
-- Entries that stand in order are determined by their IDs, where entries of one ID are one entry.
use distributed_log_query_en.Prelude.Order.{IsSorted}
use distributed_log_query_en.Types.{LogEntry}
use mathlib.Core.Path.{subst}
use distributed_log_query_en.Prelude.{
  ap, [], ==_comm, ==_refl, inr, inl, ◌==◌, Bool-cases, arith, All, ◌∷◌, List, ◌≡◌, refl, true,
  false,
}
use distributed_log_query_en.Prelude.Text.{Text, text_key}
use distributed_log_query_en.Prelude.PathSet.{contains}
use distributed_log_query_en.Entries.{ids, entry_less}
use distributed_log_query_en.Entries.Laws.{Distinct, entry_less_total}

-- What holds of every entry of the list holds of the entry whose ID is in the list.
All-ids :
    (by_id : Text → LogEntry) (P : LogEntry → Type 0) (es : List LogEntry) (e : LogEntry)
    → All (λ x. x ≡ by_id x.id) es
    → e ≡ by_id e.id
    → contains (ids es) e.id ≡ true
    → All P es
    → P e
unfolding contains
All-ids by_id P [] e one here c all = absurd (cc c)
All-ids by_id P (x ∷ xs) e (same, one) here c (p, all) = elim (Bool-cases (x.id == e.id)) [
  | inl eq ↦ let x_e : x ≡ e = cc (same, here, (text_key.eqb_iff x.id e.id).0 eq) in subst P x_e p
  | inr ne ↦ All-ids by_id P xs e one here (ground arith) all
]

tail_ids :
    (xs ys : List Text) (x y : Text)
    → x ≡ y
    → contains xs x ≡ false
    → contains ys y ≡ false
    → ((a : Text) → contains (x ∷ xs) a ≡ contains (y ∷ ys) a)
    → (a : Text) → contains xs a ≡ contains ys a
unfolding contains
tail_ids xs ys x y e m n h a = ground (arith, h a, text_key.eqb_iff x a, text_key.eqb_iff y a)

heads_equal :
    (by_id : Text → LogEntry) (x y : LogEntry) (xs ys : List LogEntry)
    → All (λ e. e ≡ by_id e.id) (x ∷ xs)
    → All (λ e. e ≡ by_id e.id) (y ∷ ys)
    → IsSorted entry_less (x ∷ xs)
    → IsSorted entry_less (y ∷ ys)
    → ((a : Text) → contains (ids (x ∷ xs)) a ≡ contains (ids (y ∷ ys)) a)
    → x ≡ y
unfolding contains
heads_equal by_id x y xs ys (x1, xall) (y1, yall) (xb, xs1) (yb, ys1) h =
    elim (Bool-cases (x.id == y.id)) [
      | inl eq ↦ cc (x1, y1, (text_key.eqb_iff x.id y.id).0 eq)
      | inr ne ↦
          let x_in : contains (ids ys) x.id ≡ true =
            ground (arith, h x.id, ==_refl x.id, ==_comm x.id y.id) in
          let y_in : contains (ids xs) y.id ≡ true = ground (arith, h y.id, ==_refl y.id) in
          let below = All-ids by_id (λ e. entry_less e y ≡ false) ys x yall x1 x_in yb in
          let above = All-ids by_id (λ e. entry_less e x ≡ false) xs y xall y1 y_in xb in
          let (same, _) = entry_less_total x y below above in cc (x1, y1, same)
    ]

pub sorted_unique :
    (by_id : Text → LogEntry) (xs ys : List LogEntry)
    → All (λ e. e ≡ by_id e.id) xs
    → All (λ e. e ≡ by_id e.id) ys
    → IsSorted entry_less xs
    → IsSorted entry_less ys
    → Distinct (ids xs)
    → Distinct (ids ys)
    → ((a : Text) → contains (ids xs) a ≡ contains (ids ys) a)
    → xs ≡ ys
unfolding contains
sorted_unique by_id [] [] p q s t d c h = refl
sorted_unique by_id [] (y ∷ ys) p q s t d c h = ground (arith, h y.id, ==_refl y.id)
sorted_unique by_id (x ∷ xs) [] p q s t d c h = ground (arith, h x.id, ==_refl x.id)
sorted_unique by_id (x ∷ xs) (y ∷ ys) (p, ps) (q, qs) (s, ss) (t, ts) (d, ds) (c, cs) h =
    let x_y = heads_equal by_id x y xs ys (p, ps) (q, qs) (s, ss) (t, ts) h in
    let rest =
      sorted_unique by_id xs ys ps qs ss ts ds cs
        (tail_ids (ids xs) (ids ys) x.id y.id (ap (λ e. e.id) x_y) d c h) in
    cc (x_y, rest)
