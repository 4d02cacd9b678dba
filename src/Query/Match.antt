-- ===== src/Query/Match.antt =====
-- internal/query/executor.go: whether an entry matches a syntax tree, and what the tree says about
-- segments before they are read.
pub mod Tokens
pub mod Prune
use distributed_log_query_en.Prelude.{
  ◌≡◌, Bool, true, false, not, ◌&&◌, ◌||◌, Option, none, some, List, [], ◌∷◌, ◌++◌, ◌==◌, or_else,
  if◌then◌else◌,
}
use distributed_log_query_en.Prelude.Text.{
  Text, text, text_key, to_lower, equal_fold, split_non_alphanumeric,
}
use distributed_log_query_en.Prelude.Dict.{get}
use distributed_log_query_en.Prelude.PathSet.{contains}
use distributed_log_query_en.Types.{LogEntry}
use distributed_log_query_en.Storage.Bloom.{BloomLib}
use distributed_log_query_en.Query.Parser.{Node, and_node, or_node, term_node, field_node}

unfoldable pub without_empty : List Text → List Text
without_empty [] = []
without_empty (p ∷ ps) = if p == [] then without_empty ps else p ∷ without_empty ps

unfoldable pub tokenize : Text → List Text
unfolding without_empty
tokenize s = without_empty (split_non_alphanumeric (to_lower s))

-- _, ok := tokenSet(s)[token]
unfoldable pub has_token : Text → Text → Bool
has_token s token = contains (tokenize s) token

unfoldable pub match_field : LogEntry → Text → Text → Bool
match_field e field value =
    let key = to_lower field in
    if key == text "level"
    then equal_fold e.level value
    else if key == text "service"
    then e.service == value
    else if key == text "namespace"
    then e.namespace == value
    else if key == text "message"
    then has_token e.message (to_lower value)
    else or_else (get field e.fields) [] == value

unfoldable pub matches_node : LogEntry → Node → Bool
matches_node e (and_node l r) = matches_node e l && matches_node e r
matches_node e (or_node l r) = matches_node e l || matches_node e r
matches_node e (term_node token) = has_token e.message token
matches_node e (field_node field value) = match_field e field value

-- A blank query has no tree, and every entry matches it.
unfoldable pub matches : LogEntry → Option Node → Bool
matches e none = true
matches e (some node) = matches_node e node

unfoldable pub bloom_definite_miss : (lib : BloomLib) → lib.Filter → Node → Bool
bloom_definite_miss lib bf (and_node l r) =
    bloom_definite_miss lib bf l || bloom_definite_miss lib bf r
bloom_definite_miss lib bf (or_node l r) = false
bloom_definite_miss lib bf (term_node token) = not (lib.test_string bf token)
bloom_definite_miss lib bf (field_node field value) = not (lib.test_string bf (to_lower value))

unfoldable pub collect_term_tokens : Node → List Text
collect_term_tokens (and_node l r) = collect_term_tokens l ++ collect_term_tokens r
collect_term_tokens (or_node l r) = []
collect_term_tokens (term_node token) = token ∷ []
collect_term_tokens (field_node _ _) = []

unfoldable pub index_tokens : Option Node → List Text
unfolding collect_term_tokens
index_tokens none = []
index_tokens (some node) = collect_term_tokens node
