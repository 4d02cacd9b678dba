-- ===== src/Query/Match/Prune.antt =====
-- The tree of internal/query/executor.go against segments that are not read: the tokens that the
-- index is asked for, and the bloom filter of a segment.
use distributed_log_query_en.Prelude.{
  length, [], ◌++◌, ◌∷◌, All, List, ◌≢◌, ◌≡◌, refl, Bool, true, false, ◌&&◌, ◌||◌, Option, none,
  some, ◌==◌, arith, all_pass, all_pass-append,
}
use distributed_log_query_en.Prelude.Text.{
  Text, text, text_key, to_lower, equal_fold, to_lower-to_lower,
}
use distributed_log_query_en.Prelude.Dict.{get}
use distributed_log_query_en.Prelude.PathSet.{contains, contains-append}
use distributed_log_query_en.Types.{LogEntry}
use distributed_log_query_en.Storage.Bloom.{build_bloom, BloomLib}
use distributed_log_query_en.Storage.Manager.{tokenize_entries, tokenize_entry}
use distributed_log_query_en.Index
use distributed_log_query_en.Query.Parser.{Node, and_node, or_node, term_node, field_node}
use distributed_log_query_en.Query.Match
use distributed_log_query_en.Query.Match.{
  has_token, match_field, matches_node, matches, bloom_definite_miss, collect_term_tokens,
  index_tokens,
}
use distributed_log_query_en.Query.Match.Tokens.{
  tokenize-eq_index, tokenize-IsLower, drop_empty-eq_query,
}

collect-matches :
    (e : LogEntry) (n : Node)
    → matches_node e n ≡ true
    → all_pass (contains (Index.tokenize e.message)) (collect_term_tokens n) ≡ true
unfolding matches_node collect_term_tokens all_pass has_token
collect-matches e (and_node l r) h = ground (
  arith,
  all_pass-append (contains (Index.tokenize e.message)) (collect_term_tokens l)
      (collect_term_tokens r),
  collect-matches e l,
  collect-matches e r,
)
collect-matches e (or_node l r) h = refl
collect-matches e (term_node t) h = ground (arith, tokenize-eq_index e.message)
collect-matches e (field_node f v) h = refl

-- Every token that the index is asked for is a token of each entry that matches the query.
pub index_tokens-matches :
    (e : LogEntry) (ast : Option Node)
    → matches e ast ≡ true
    → all_pass (contains (Index.tokenize e.message)) (index_tokens ast) ≡ true
unfolding index_tokens matches all_pass
index_tokens-matches e none h = refl
index_tokens-matches e (some n) h = collect-matches e n h

-- The fields whose values go into a bloom filter.
unfoldable pub is_indexed_field : Text → Bool
is_indexed_field field =
    to_lower field == text "level"
    || to_lower field == text "service"
    || to_lower field == text "namespace"
    || to_lower field == text "message"

-- The tree filters on such fields only.
unfoldable pub uses_indexed_fields : Node → Bool
unfolding is_indexed_field
uses_indexed_fields (and_node l r) = uses_indexed_fields l && uses_indexed_fields r
uses_indexed_fields (or_node l r) = true
uses_indexed_fields (term_node _) = true
uses_indexed_fields (field_node field _) = is_indexed_field field

contains-tokenize_entry :
    (e : LogEntry) (tok : Text)
    → contains (tokenize_entry e) tok ≡ (
        contains (Match.tokenize e.message) tok
        || (to_lower e.level == tok
            || (to_lower e.service == tok || (to_lower e.namespace == tok || false))))
unfolding tokenize_entry Match.tokenize
contains-tokenize_entry e tok = rw (contains-append, drop_empty-eq_query) (unfold contains in refl)

module _ (lib : BloomLib) where
  open lib use {Filter, test_string}

  -- The filter holds every token of the entry, as `rotate` and a merge build it.
  abbrev pub HoldsEntry : Filter → LogEntry → Type 0
  HoldsEntry bf e =
      (tok : Text) → contains (tokenize_entry e) tok ≡ true → test_string bf (to_lower tok) ≡ true

  -- A token of the message passes the filter as it stands.
  HoldsEntry-token :
      (bf : Filter) (e : LogEntry) (t : Text)
      → HoldsEntry bf e
      → contains (Match.tokenize e.message) t ≡ true
      → test_string bf t ≡ true
  HoldsEntry-token bf e t h m =
      rw (tokenize-IsLower e.message t m) at (h t (ground (arith, contains-tokenize_entry e t)))

  HoldsEntry-field :
      (bf : Filter) (e : LogEntry) (field value : Text)
      → HoldsEntry bf e
      → is_indexed_field field ≡ true
      → match_field e field value ≡ true
      → test_string bf (to_lower value) ≡ true
  unfolding is_indexed_field match_field has_token equal_fold
  HoldsEntry-field bf e field value h i m = ground (
    arith,
    contains-tokenize_entry e (to_lower value),
    h (to_lower value),
    to_lower-to_lower value,
    text_key.eqb_iff (to_lower e.level) (to_lower value),
    text_key.eqb_iff e.service value,
    text_key.eqb_iff e.namespace value,
    text_key.eqb_iff (to_lower e.service) (to_lower value),
    text_key.eqb_iff (to_lower e.namespace) (to_lower value),
  )

  -- A filter that holds the entry's tokens rules no matching entry out, for trees whose required
  -- filters are on the level, the service, the namespace or the message.
  pub bloom_definite_miss_sound :
      (bf : Filter) (e : LogEntry) (n : Node)
      → HoldsEntry bf e
      → uses_indexed_fields n ≡ true
      → matches_node e n ≡ true
      → bloom_definite_miss lib bf n ≡ false
  unfolding bloom_definite_miss matches_node uses_indexed_fields
  bloom_definite_miss_sound bf e (and_node l r) h u m =
      ground (arith, bloom_definite_miss_sound bf e l h, bloom_definite_miss_sound bf e r h)
  bloom_definite_miss_sound bf e (or_node l r) h u m = refl
  bloom_definite_miss_sound bf e (term_node t) h u m =
      ground (arith, HoldsEntry-token bf e t h (unfold has_token in m))
  bloom_definite_miss_sound bf e (field_node f v) h u m =
      ground (arith, HoldsEntry-field bf e f v h u m)

  -- The text is no word of the message, nor the level, the service or the namespace of the entry.
  pub record Lacks (v : Text) (e : LogEntry) : Type 0 where
    pub word : contains (Match.tokenize e.message) v ≡ false
    pub level : to_lower e.level ≢ v
    pub service : to_lower e.service ≢ v
    pub namespace : to_lower e.namespace ≢ v

  Lacks-tokenize_entry :
      (v : Text) (e : LogEntry) → Lacks v e → contains (tokenize_entry e) v ≡ false
  Lacks-tokenize_entry v e l = ground (
    arith,
    contains-tokenize_entry e v,
    l.word,
    l.level,
    l.service,
    l.namespace,
    text_key.eqb_iff (to_lower e.level) v,
    text_key.eqb_iff (to_lower e.service) v,
    text_key.eqb_iff (to_lower e.namespace) v,
  )

  Lacks-tokenize_entries :
      (v : Text) (es : List LogEntry) → All (Lacks v) es → contains (tokenize_entries es) v ≡ false
  unfolding tokenize_entries
  Lacks-tokenize_entries v [] l = unfold contains in refl
  Lacks-tokenize_entries v (e ∷ es) (l, ls) = ground (
    arith,
    contains-append (tokenize_entry e) (tokenize_entries es) v,
    Lacks-tokenize_entry v e l,
    Lacks-tokenize_entries v es ls,
  )

  -- The filter that is built from the entries of a segment, as a rotation and a merge do, rules the
  -- segment out for a query of a field other than the level, the service, the namespace and the
  -- message, although one of the entries has that field with that value and matches: where the value
  -- is no word of a message, no level, no service and no namespace in the segment, in lower case, and
  -- the filter does not hold it by chance.
  pub bloom_misses_custom_field :
      (before after : List LogEntry) (e : LogEntry) (field value : Text)
      → is_indexed_field field ≡ false
      → get field e.fields ≡ some value
      → All (Lacks (to_lower value)) (before ++ e ∷ after)
      → (let toks = tokenize_entries (before ++ e ∷ after) in
          contains toks (to_lower value) ≡ false
          → test_string (build_bloom lib toks (length toks)) (to_lower value) ≡ false)
      → (let toks = tokenize_entries (before ++ e ∷ after) in
          (matches_node e (field_node field value) ≡ true)
          × (bloom_definite_miss lib (build_bloom lib toks (length toks)) (field_node field value)
              ≡ true))
  unfolding is_indexed_field bloom_definite_miss matches_node match_field
  bloom_misses_custom_field before after e field value i g lacks exact =
      let missed = exact (Lacks-tokenize_entries (to_lower value) (before ++ e ∷ after) lacks) in
      ground (arith, missed, text_key.eqb_iff value value)
