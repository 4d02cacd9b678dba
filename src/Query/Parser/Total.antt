-- ===== src/Query/Parser/Total.antt =====
-- The parser of internal/query/parser.go always ends: its fuel is never used up.
use distributed_log_query_en.Prelude.{
  ℕ, zero, suc, ◌+◌, ◌*◌, ◌≤◌, ◌<◌, ◌≡◌, ◌≢◌, refl, true, false, List, [], ◌∷◌, ◌==◌, arith, length,
  Bool-cases, inl, inr, ◌||◌,
}
use distributed_log_query_en.Prelude.Text.{trim_space, text_eqb, Text, text, text_key, text_eqb}
use distributed_log_query_en.Prelude.Result.{Result-cases, ok, err, ◌>>=◌}
use distributed_log_query_en.Query.Parser.{
  Node, Parsed, unexpected_end, expected_closing, out_of_fuel, unexpected_operator,
  unexpected_token, peek, consume, close_paren, parse_or, or_loop, parse_and, and_loop, parse_atom,
  finish, parse_tokens, parse, lex,
}

-- The parser did not run out of fuel, and what it left is shorter than `n`.
abbrev Leaves : ℕ → Parsed → Type 0
Leaves n (ok (_, rest)) = length rest < n
Leaves n (err out_of_fuel) = ⊥
Leaves n (err _) = Unit

Leaves-bind :
    (m n : ℕ) (r : Parsed) (k : Node × List Text → Parsed)
    → Leaves m r
    → ((node : Node) (rest : List Text) → length rest < m → Leaves n (k (node, rest)))
    → Leaves n (r >>= k)
Leaves-bind m n (ok (node, rest)) k h go = go node rest h
Leaves-bind m n (err out_of_fuel) k h go = absurd h
Leaves-bind m n (err unexpected_end) k h go = tt
Leaves-bind m n (err expected_closing) k h go = tt
Leaves-bind m n (err (unexpected_operator _)) k h go = tt
Leaves-bind m n (err (unexpected_token _ _)) k h go = tt

length-consume :
    (ts : List Text) (c : ℕ) (t : Text)
    → (peek ts == c ∷ t) ≡ true
    → suc (length (consume ts)) ≡ length ts
unfolding peek consume text_eqb
length-consume [] c t h = cc
length-consume (_ ∷ ts) c t h = refl

length-consume_some :
    (ts : List Text) → (peek ts == []) ≡ false → suc (length (consume ts)) ≡ length ts
unfolding peek consume
length-consume_some [] h = ground (arith, text_key.eqb_iff [] [])
length-consume_some (_ ∷ ts) h = refl

close_paren-Leaves :
    (n : ℕ) (node : Node) (ts : List Text) → length ts ≤ n → Leaves n (close_paren node ts)
unfolding close_paren
close_paren-Leaves n node ts h = elim (Bool-cases (peek ts == text ")")) [
  | inl e ↦ rw e (omega (arith, length-consume ts b')' [] e))
  | inr e ↦ rw e tt
]

mutual
  unfolding parse_or

  or-Leaves : (f : ℕ) (ts : List Text) → 3 * length ts + 3 ≤ f → Leaves (length ts) (parse_or f ts)
  or-Leaves zero ts h = absurd (omega arith)
  or-Leaves (suc f) ts h =
      Leaves-bind (length ts) (length ts) (parse_and f ts) _ (and-Leaves f ts (omega arith))
        λ node rest lt. or_loop-Leaves f node rest (length ts) (omega arith) lt

  or_loop-Leaves :
      (f : ℕ) (left : Node) (ts : List Text) (n : ℕ)
      → 3 * length ts + 1 ≤ f
      → length ts < n
      → Leaves n (or_loop f left ts)
  or_loop-Leaves zero left ts n h lt = absurd (omega arith)
  or_loop-Leaves (suc f) left ts n h lt = elim (Bool-cases (peek ts == text "OR")) [
    | inr e ↦ rw (e, or_loop) lt
    | inl e ↦
        let shorter = length-consume ts b'O' (text "R") e in
        rw (e, or_loop)
          (Leaves-bind (length (consume ts)) n (parse_and f (consume ts)) _
            (and-Leaves f (consume ts) (omega (arith, shorter)))
            λ node rest small.
              or_loop-Leaves f _ rest n (omega (arith, shorter)) (omega (arith, shorter)))
  ]

  and-Leaves :
      (f : ℕ) (ts : List Text) → 3 * length ts + 2 ≤ f → Leaves (length ts) (parse_and f ts)
  and-Leaves zero ts h = absurd (omega arith)
  and-Leaves (suc f) ts h =
      Leaves-bind (length ts) (length ts) (parse_atom f ts) _ (atom-Leaves f ts (omega arith))
        λ node rest lt. and_loop-Leaves f node rest (length ts) (omega arith) lt

  and_loop-Leaves :
      (f : ℕ) (left : Node) (ts : List Text) (n : ℕ)
      → 3 * length ts + 1 ≤ f
      → length ts < n
      → Leaves n (and_loop f left ts)
  and_loop-Leaves zero left ts n h lt = absurd (omega arith)
  and_loop-Leaves (suc f) left ts n h lt = elim (Bool-cases (peek ts == text "AND")) [
    | inr e ↦ rw (e, and_loop) lt
    | inl e ↦
        let shorter = length-consume ts b'A' (text "ND") e in
        rw (e, and_loop)
          (Leaves-bind (length (consume ts)) n (parse_atom f (consume ts)) _
            (atom-Leaves f (consume ts) (omega (arith, shorter)))
            λ node rest small.
              and_loop-Leaves f _ rest n (omega (arith, shorter)) (omega (arith, shorter)))
  ]

  atom-Leaves :
      (f : ℕ) (ts : List Text) → 3 * length ts + 1 ≤ f → Leaves (length ts) (parse_atom f ts)
  atom-Leaves zero ts h = absurd (omega arith)
  atom-Leaves (suc f) ts h = elim (Bool-cases (peek ts == [])) [
    | inl e ↦ rw (e, parse_atom) tt
    | inr some_token ↦ elim (Bool-cases (peek ts == text "AND" || peek ts == text "OR")) [
      | inl op ↦ rw (some_token, op, parse_atom) tt
      | inr no_op ↦
          let shorter = length-consume_some ts some_token in
          elim (Bool-cases (peek ts == text "(")) [
            | inr e ↦ rw (some_token, no_op, e, parse_atom) (omega (arith, shorter))
            | inl e ↦
                rw (some_token, no_op, e, parse_atom)
                  (Leaves-bind (length (consume ts)) (length ts) (parse_or f (consume ts)) _
                    (or-Leaves f (consume ts) (omega (arith, shorter)))
                    λ node rest small.
                      close_paren-Leaves (length ts) node rest (omega (arith, shorter)))
          ]
    ]
  ]

finish-ne :
    (tokens : List Text) (node : Node) (rest : List Text)
    → finish tokens (node, rest) ≢ err out_of_fuel
unfolding finish
finish-ne tokens node [] h = cc
finish-ne tokens node (_ ∷ _) h = cc

-- The fuel of `parse_tokens` is enough: parsing ends with a tree or with an error of the source.
parse_tokens_ends : (tokens : List Text) → parse_tokens tokens ≢ err out_of_fuel
unfolding parse_tokens
parse_tokens_ends tokens h =
    let fits = or-Leaves (3 * length tokens + 3) tokens (omega arith) in
    elim (Result-cases (parse_or (3 * length tokens + 3) tokens)) [
      | inl ((node, rest), e) ↦ finish-ne tokens node rest (rw e at h)
      | inr (out_of_fuel, e) ↦ rw e at fits
      | inr (unexpected_end, e) ↦ cc (rw e at h)
      | inr (expected_closing, e) ↦ cc (rw e at h)
      | inr (unexpected_operator _, e) ↦ cc (rw e at h)
      | inr (unexpected_token _ _, e) ↦ cc (rw e at h)
    ]

-- Parsing any query ends with a tree, with no tree for a blank query, or with an error of the
-- source: the fuel is never used up.
pub parse_ends : (query : Text) → parse query ≢ err out_of_fuel
unfolding parse
parse_ends query h = elim (Bool-cases (trim_space query == [])) [
  | inl blank ↦ cc (rw (blank, parse) at h)
  | inr more ↦ parse_tokens_ends (lex (trim_space query)) (rw (more, parse) at h)
]
