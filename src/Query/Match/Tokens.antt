-- ===== src/Query/Match/Tokens.antt =====
-- The tokenizers of internal/index/index.go, internal/query/executor.go and
-- internal/storage/manager.go cut text in the same way, into lower-case tokens.
use distributed_log_query_en.Prelude.{
  ℕ, ◌≡◌, refl, ap, Bool, true, false, List, [], ◌∷◌, ◌++◌, ◌==◌, All, arith, keep, Bool-cases, inl,
  inr,
}
use distributed_log_query_en.Prelude.Text.{
  Text, text_key, to_lower, split_non_alphanumeric, split_from, lower_byte, to_lower-to_lower,
  is_alphanumeric,
}
use distributed_log_query_en.Prelude.PathSet.{contains, All-contains}
use distributed_log_query_en.Index
use distributed_log_query_en.Query.Match
use distributed_log_query_en.Query.Match.{without_empty}
use distributed_log_query_en.Storage.Manager.{drop_empty}

-- The query side and the index cut a message into the same tokens.
pub tokenize-eq_index : (s : Text) → Match.tokenize s ≡ Index.tokenize s
unfolding Match.tokenize Index.tokenize
tokenize-eq_index s = parts (split_non_alphanumeric (to_lower s))
  where
    parts : (ps : List Text) → without_empty ps ≡ Index.nonempty_parts ps
    parts [] = refl
    parts (p ∷ ps) = ground (arith, parts ps)

pub drop_empty-eq_query : (ps : List Text) → drop_empty ps ≡ without_empty ps
unfolding drop_empty without_empty keep
drop_empty-eq_query [] = refl
drop_empty-eq_query (p ∷ ps) = ground (arith, drop_empty-eq_query ps)

to_lower-append : (s t : Text) → to_lower (s ++ t) ≡ to_lower s ++ to_lower t
unfolding to_lower
to_lower-append [] t = refl
to_lower-append (c ∷ s) t = ap (◌∷◌ (lower_byte c)) (to_lower-append s t)

abbrev IsLower : Text → Type 0
IsLower t = to_lower t ≡ t

IsLower-snoc : (cur : Text) (c : ℕ) → IsLower cur → lower_byte c ≡ c → IsLower (cur ++ c ∷ [])
IsLower-snoc cur c h k = rw (to_lower-append, h) (unfold to_lower in ap (λ b. cur ++ b ∷ []) k)

split_from-IsLower :
    (in_run : Bool) (cur s : Text) → IsLower cur → IsLower s → All IsLower (split_from in_run cur s)
unfolding split_from
split_from-IsLower in_run cur [] h k = (h, tt)
split_from-IsLower in_run cur (c ∷ s) h k =
    let head : lower_byte c ≡ c = unfold to_lower in ground arith in
    let rest : IsLower s = unfold to_lower in ground arith in
    elim (Bool-cases (is_alphanumeric c)) [
      | inl e ↦
          rw (e, split_from)
            (split_from-IsLower false (cur ++ c ∷ []) s (IsLower-snoc cur c h head) rest)
      | inr e ↦ elim (Bool-cases in_run) [
        | inl run ↦ rw (e, run, split_from) (split_from-IsLower true cur s h rest)
        | inr start ↦
            rw (e, start, split_from)
              (h, split_from-IsLower true [] s (unfold to_lower in refl) rest)
      ]
    ]

without_empty-All : (P : Text → Type 0) (ps : List Text) → All P ps → All P (without_empty ps)
unfolding without_empty
without_empty-All P [] h = tt
without_empty-All P (p ∷ ps) (x, h) = elim (Bool-cases (p == [])) [
  | inl e ↦ rw e (without_empty-All P ps h)
  | inr e ↦ rw e (x, without_empty-All P ps h)
]

-- Every token of a text is in lower case.
pub tokenize-IsLower : (s t : Text) → contains (Match.tokenize s) t ≡ true → to_lower t ≡ t
unfolding Match.tokenize split_non_alphanumeric
tokenize-IsLower s t h =
    All-contains IsLower (Match.tokenize s) t
      (without_empty-All IsLower (split_non_alphanumeric (to_lower s))
        (split_from-IsLower false [] (to_lower s) (unfold to_lower in refl) (to_lower-to_lower s)))
      h
