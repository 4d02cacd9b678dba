-- ===== src/Query/Parser.antt =====
-- internal/query/parser.go: the syntax tree, the lexer and the recursive descent parser.
pub mod Total
use mathlib.Core.List.{reverse}
use distributed_log_query_en.Prelude.{
  ℕ, zero, suc, ◌+◌, ◌-◌, ◌*◌, ◌≡◌, refl, Bool, true, false, ◌||◌, Option, none, some, List, [],
  ◌∷◌, ◌++◌, nat_eqb, ◌==◌, length, if◌then◌else◌,
}
use distributed_log_query_en.Prelude.Text.{trim_space, Text, text, text_key, to_lower, is_space}
use distributed_log_query_en.Prelude.Result.{Result, ok, err, ◌>>=◌}

pub data Node : Type 0 where
  and_node or_node : Node → Node → Node
  term_node : Text → Node
  field_node : Text → Text → Node

pub data ParseError : Type 0 where
  unexpected_end expected_closing out_of_fuel : ParseError
  unexpected_operator : Text → ParseError
  unexpected_token : Text → ℕ → ParseError

-- strings.ReplaceAll(query, "(", " ( "), and so for ")"
unfoldable pub pad : ℕ → Text → Text
pad c [] = []
pad c (b ∷ s) = (if nat_eqb b c then 32 ∷ b ∷ 32 ∷ [] else b ∷ []) ++ pad c s

-- strings.Fields, with the field that is being read.
unfoldable pub fields_from : Text → Text → List Text
unfolding is_space
fields_from cur [] = if cur == [] then [] else cur ∷ []
fields_from cur (c ∷ s) = elim (is_space c) [
  | true ↦ (let rest = fields_from [] s in if cur == [] then rest else cur ∷ rest)
  | false ↦ fields_from (cur ++ c ∷ []) s
]

unfoldable pub lex : Text → List Text
unfolding pad fields_from
lex query = fields_from [] (pad b')' (pad b'(' query))

-- strings.SplitN(tok, ":", 2), if there is a colon
unfoldable pub cut_colon : Text → Option (Text × Text)
cut_colon [] = none
cut_colon (c ∷ s) =
    if nat_eqb c b':'
    then some ([], s)
    else elim (cut_colon s) [ none ↦ none | some (a, b) ↦ some (c ∷ a, b) ]

abbrev pub Parsed : Type 0
Parsed = Result ParseError (Node × List Text)

-- The parser's state is the list of the tokens from `pos` on.
unfoldable pub peek : List Text → Text
peek [] = []
peek (t ∷ _) = t

unfoldable pub consume : List Text → List Text
consume [] = []
consume (_ ∷ ts) = ts

-- A bare term or a field filter.
unfoldable pub leaf : Text → Node
unfolding cut_colon
leaf tok = elim (cut_colon tok) [
  | some (field, value) ↦ field_node field value
  | none ↦ term_node (to_lower tok)
]

unfoldable pub close_paren : Node → List Text → Parsed
close_paren node ts = if peek ts == text ")" then ok (node, consume ts) else err expected_closing

unfoldable mutual
  pub parse_or : ℕ → List Text → Parsed
  parse_or zero ts = err out_of_fuel
  parse_or (suc f) ts = do (left, rest) ← parse_and f ts; or_loop f left rest

  pub or_loop : ℕ → Node → List Text → Parsed
  or_loop zero left ts = err out_of_fuel
  or_loop (suc f) left ts = elim (peek ts == text "OR") [
    | true ↦ do (right, rest) ← parse_and f (consume ts); or_loop f (or_node left right) rest
    | false ↦ ok (left, ts)
  ]

  pub parse_and : ℕ → List Text → Parsed
  parse_and zero ts = err out_of_fuel
  parse_and (suc f) ts = do (left, rest) ← parse_atom f ts; and_loop f left rest

  pub and_loop : ℕ → Node → List Text → Parsed
  and_loop zero left ts = err out_of_fuel
  and_loop (suc f) left ts = elim (peek ts == text "AND") [
    | true ↦ do (right, rest) ← parse_atom f (consume ts); and_loop f (and_node left right) rest
    | false ↦ ok (left, ts)
  ]

  pub parse_atom : ℕ → List Text → Parsed
  parse_atom zero ts = err out_of_fuel
  parse_atom (suc f) ts =
      let tok = peek ts in
      elim (tok == []) [
        | true ↦ err unexpected_end
        | false ↦ elim (tok == text "AND" || tok == text "OR") [
          | true ↦ err (unexpected_operator tok)
          | false ↦ elim (tok == text "(") [
            | true ↦ do (node, rest) ← parse_or f (consume ts); close_paren node rest
            | false ↦ ok (leaf tok, consume ts)
          ]
        ]
      ]

-- What is left over is an error at its position.
unfoldable pub finish : List Text → Node × List Text → Result ParseError (Option Node)
finish tokens (node, []) = ok (some node)
finish tokens (node, tok ∷ rest) = err (unexpected_token tok (length tokens - length (tok ∷ rest)))

unfoldable pub parse_tokens : List Text → Result ParseError (Option Node)
parse_tokens tokens = do parsed ← parse_or (3 * length tokens + 3) tokens; finish tokens parsed

unfoldable pub parse : Text → Result ParseError (Option Node)
parse query =
    let trimmed = trim_space query in if trimmed == [] then ok none else parse_tokens (lex trimmed)
