-- ===== src/Entries/Laws.antt =====
-- Laws of removing repeated IDs and of the order of entries.
use distributed_log_query_en.Prelude.{
  All-map, All, zero, drop, suc, take, ℕ, ◌≡◌, refl, Bool, true, false, not, ◌&&◌, ◌||◌, List, [],
  ◌∷◌, ◌==◌, arith, keep, Bool-cases, inl, inr, ==_refl, ==_comm,
}
use distributed_log_query_en.Prelude.Text.{
  Text, text_key, text_less, text_less_irrefl, text_less_trans, text_less_total,
}
use distributed_log_query_en.Prelude.PathSet.{contains}
use distributed_log_query_en.Prelude.Int.{int_key, less_trans, less_asymm, less_total}
use distributed_log_query_en.Prelude.Order.{insert_by, sort_by, IsWeakOrder}
use distributed_log_query_en.Types.{LogEntry}
use distributed_log_query_en.Entries.{ids, dedup_from, entry_less}

text_asymm : (s t : Text) → text_less s t ≡ true → text_less t s ≡ false
text_asymm s t h = ground (arith, text_less_trans s t s h, text_less_irrefl s)

entry_less_asymm : (a b : LogEntry) → entry_less a b ≡ true → entry_less b a ≡ false
unfolding entry_less
entry_less_asymm a b h = ground (
  arith,
  text_asymm a.id b.id,
  less_asymm b.timestamp a.timestamp,
  int_key.eqb_iff a.timestamp b.timestamp,
  int_key.eqb_iff b.timestamp a.timestamp,
)

entry_not_less_trans :
    (x y z : LogEntry) → entry_less y x ≡ false → entry_less z y ≡ false → entry_less z x ≡ false
unfolding entry_less
entry_not_less_trans x y z h k = ground (
  arith,
  text_less_trans x.id z.id y.id,
  text_less_trans z.id x.id y.id,
  text_less_trans y.id z.id x.id,
  text_less_total x.id y.id,
  text_less_total y.id z.id,
  less_trans x.timestamp y.timestamp z.timestamp,
  less_trans y.timestamp z.timestamp x.timestamp,
  less_trans z.timestamp x.timestamp y.timestamp,
  less_trans x.timestamp z.timestamp y.timestamp,
  less_total x.timestamp y.timestamp,
  less_total y.timestamp z.timestamp,
  less_total x.timestamp z.timestamp,
  int_key.eqb_iff x.timestamp y.timestamp,
  int_key.eqb_iff z.timestamp y.timestamp,
  int_key.eqb_iff y.timestamp x.timestamp,
  int_key.eqb_iff z.timestamp x.timestamp,
)

pub entry_order : IsWeakOrder entry_less
entry_order = record { asymm = entry_less_asymm; not_less_trans = entry_not_less_trans }

-- Entries that the order does not tell apart have one ID and one time.
pub entry_less_total :
    (a b : LogEntry)
    → entry_less a b ≡ false
    → entry_less b a ≡ false
    → (a.id ≡ b.id) × (a.timestamp ≡ b.timestamp)
unfolding entry_less
entry_less_total a b h k = ground (
  arith,
  text_less_total a.id b.id,
  less_total a.timestamp b.timestamp,
  int_key.eqb_iff a.timestamp b.timestamp,
  int_key.eqb_iff b.timestamp a.timestamp,
)

-- No ID stands twice.
abbrev pub Distinct : List Text → Type 0
Distinct [] = Unit
Distinct (x ∷ xs) = (contains xs x ≡ false) × Distinct xs

contains-ids_insert :
    (x : LogEntry) (ys : List LogEntry) (a : Text)
    → contains (ids (insert_by entry_less x ys)) a ≡ (x.id == a || contains (ids ys) a)
unfolding insert_by contains
contains-ids_insert x [] a = refl
contains-ids_insert x (y ∷ ys) a = ground (arith, contains-ids_insert x ys a)

pub contains-ids_sort :
    (xs : List LogEntry) (a : Text) → contains (ids (sort_by entry_less xs)) a ≡ contains (ids xs) a
unfolding sort_by contains
contains-ids_sort [] a = refl
contains-ids_sort (x ∷ xs) a =
    ground (arith, contains-ids_insert x (sort_by entry_less xs) a, contains-ids_sort xs a)

Distinct-insert :
    (x : LogEntry) (ys : List LogEntry)
    → contains (ids ys) x.id ≡ false
    → Distinct (ids ys)
    → Distinct (ids (insert_by entry_less x ys))
unfolding insert_by contains
Distinct-insert x [] n d = (refl, tt)
Distinct-insert x (y ∷ ys) n (m, d) = elim (Bool-cases (entry_less y x)) [
  | inl e ↦ rw e (
    ground (arith, contains-ids_insert x ys y.id, ==_comm x.id y.id),
    Distinct-insert x ys (ground arith) d,
  )
  | inr e ↦ rw e (n, (m, d))
]

pub Distinct-sort :
    (xs : List LogEntry) → Distinct (ids xs) → Distinct (ids (sort_by entry_less xs))
unfolding sort_by
Distinct-sort [] d = tt
Distinct-sort (x ∷ xs) (n, d) =
    Distinct-insert x (sort_by entry_less xs) (ground (arith, contains-ids_sort xs x.id))
      (Distinct-sort xs d)

contains-ids-keep :
    (p : LogEntry → Bool) (xs : List LogEntry) (a : Text)
    → contains (ids xs) a ≡ false
    → contains (ids (keep p xs)) a ≡ false
unfolding keep contains
contains-ids-keep p [] a h = refl
contains-ids-keep p (x ∷ xs) a h = ground (arith, contains-ids-keep p xs a)

pub Distinct-keep :
    (p : LogEntry → Bool) (xs : List LogEntry) → Distinct (ids xs) → Distinct (ids (keep p xs))
unfolding keep
Distinct-keep p [] d = tt
Distinct-keep p (x ∷ xs) (n, d) = elim (Bool-cases (p x)) [
  | inl e ↦ rw e (contains-ids-keep p xs x.id n, Distinct-keep p xs d)
  | inr e ↦ rw e (Distinct-keep p xs d)
]

-- What is kept has no ID that was seen before, and no ID twice.
pub contains-dedup_from :
    (seen : List Text) (es : List LogEntry) (a : Text)
    → contains (ids (dedup_from seen es)) a ≡ (not (contains seen a) && contains (ids es) a)
unfolding dedup_from contains
contains-dedup_from seen [] a = ground arith
contains-dedup_from seen (e ∷ es) a = ground (
  arith,
  contains-dedup_from seen es a,
  contains-dedup_from (e.id ∷ seen) es a,
  text_key.eqb_iff e.id a,
)

pub Distinct-dedup_from :
    (seen : List Text) (es : List LogEntry) → Distinct (ids (dedup_from seen es))
unfolding dedup_from
Distinct-dedup_from seen [] = tt
Distinct-dedup_from seen (e ∷ es) = elim (Bool-cases (contains seen e.id)) [
  | inl old ↦ rw (old, dedup_from) (Distinct-dedup_from seen es)
  | inr new ↦
      rw (new, dedup_from)
        (
          unfold contains in
              ground (arith, contains-dedup_from (e.id ∷ seen) es e.id, ==_refl e.id),
          Distinct-dedup_from (e.id ∷ seen) es,
        )
]

contains-ids-take :
    (n : ℕ) (es : List LogEntry) (a : Text)
    → contains (ids es) a ≡ false
    → contains (ids (take n es)) a ≡ false
unfolding contains
contains-ids-take zero es a h = refl
contains-ids-take (suc n) [] a h = refl
contains-ids-take (suc n) (x ∷ es) a h = ground (arith, contains-ids-take n es a)

pub Distinct-take-drop :
    (m n : ℕ) (es : List LogEntry) → Distinct (ids es) → Distinct (ids (take m (drop n es)))
Distinct-take-drop zero n es d = tt
Distinct-take-drop (suc m) zero [] d = tt
Distinct-take-drop (suc m) zero (e ∷ es) (c, d) =
    (contains-ids-take m es e.id c, Distinct-take-drop m zero es d)
Distinct-take-drop (suc m) (suc n) [] d = tt
Distinct-take-drop (suc m) (suc n) (e ∷ es) (c, d) = Distinct-take-drop (suc m) n es d

-- An entry that passes is found by its ID, where entries of one ID are one entry.
pub contains-keep_dedup :
    (by_id : Text → LogEntry) (p : LogEntry → Bool) (seen : List Text) (raw : List LogEntry)
    (e : LogEntry)
    → All (λ x. x ≡ by_id x.id) raw
    → e ≡ by_id e.id
    → p e ≡ true
    → contains (ids raw) e.id ≡ true
    → contains seen e.id ≡ false
    → contains (ids (keep p (dedup_from seen raw))) e.id ≡ true
unfolding contains dedup_from keep
contains-keep_dedup by_id p seen [] e all one h here new = cc
contains-keep_dedup by_id p seen (x ∷ xs) e (same, all) one h here new =
    elim (Bool-cases (x.id == e.id)) [
      | inl eq ↦
          let x_e : x ≡ e = cc (same, one, (text_key.eqb_iff x.id e.id).0 eq) in
          let q : p x ≡ true = cc (x_e, h) in
          let n : contains seen x.id ≡ false = cc (x_e, new) in ground (arith, q, n)
      | inr ne ↦ ground (
        arith,
        contains-keep_dedup by_id p seen xs e all one h,
        contains-keep_dedup by_id p (x.id ∷ seen) xs e all one h,
      )
    ]

pub ids-All : (es : List LogEntry) → All (λ e. contains (ids es) e.id ≡ true) es
unfolding contains
ids-All [] = tt
ids-All (x ∷ xs) = (
  ground (arith, ==_refl x.id),
  All-map (λ e. contains (ids xs) e.id ≡ true) (λ e. contains (ids (x ∷ xs)) e.id ≡ true) xs
      (λ e h. ground arith) (ids-All xs),
)

pub dedup_from-All :
    (P : LogEntry → Type 0) (seen : List Text) (es : List LogEntry)
    → All P es
    → All P (dedup_from seen es)
unfolding dedup_from
dedup_from-All P seen [] h = tt
dedup_from-All P seen (e ∷ es) (p, h) = elim (Bool-cases (contains seen e.id)) [
  | inl old ↦ rw (old, dedup_from) (dedup_from-All P seen es h)
  | inr new ↦ rw (new, dedup_from) (p, dedup_from-All P (e.id ∷ seen) es h)
]
