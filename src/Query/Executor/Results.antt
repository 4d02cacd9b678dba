-- ===== src/Query/Executor/Results.antt =====
-- What `Execute` of internal/query/executor.go returns when it returns entries.
use mathlib.Core.Path.{subst}
use distributed_log_query_en.Prelude.{
  refl, if◌then◌else◌, arith, length-take, Bool, drop, [], All-take_drop, keep, List, Option, ◌≡◌,
  true, false, length, All, keep-All, ◌≤◌,
}
use distributed_log_query_en.Prelude.Order.{
  IsSorted, sort_by-IsSorted, sort_by-All, IsSorted-take, IsSorted-drop,
}
use distributed_log_query_en.Prelude.Result.{ok-injective, err, Result, ok, >>=-eq-ok}
use distributed_log_query_en.Types.{LogEntry, QueryRequest, QueryResult, Codec}
use distributed_log_query_en.Entries.{ids, dedup_from, entry_less}
use distributed_log_query_en.Entries.Laws.{
  Distinct-take-drop, entry_order, Distinct, Distinct-sort, Distinct-keep, Distinct-dedup_from,
}
use distributed_log_query_en.Storage.Bloom.{BloomLib}
use distributed_log_query_en.Query.Parser.{Node, parse}
use distributed_log_query_en.Query.Executor.{
  candidate_paths, read_candidates, canceled, negative_offset, negative_limit, ParseError, pos,
  less, at_parse, Store, Index, passes, filter_sort, page, to_nat, effective_limit, Context,
  execute,
}

-- A page of what a query finds: entries that pass, in order, each ID once, within the limit.
pub record IsPage (req : QueryRequest) (ast : Option Node) (r : QueryResult) : Type 0 where
  pub all_pass : All (λ e. passes req ast e ≡ true) r.entries
  pub sorted : IsSorted entry_less r.entries
  pub distinct : Distinct (ids r.entries)
  pub bounded : length r.entries ≤ to_nat (effective_limit req.limit)
  pub whole : r.partial ≡ false

filter_sort-All :
    (req : QueryRequest) (ast : Option Node) (raw : List LogEntry)
    → All (λ e. passes req ast e ≡ true) (filter_sort req ast raw)
unfolding filter_sort
filter_sort-All req ast raw =
    sort_by-All entry_less (λ e. passes req ast e ≡ true)
      (keep (passes req ast) (dedup_from [] raw)) (keep-All (passes req ast) (dedup_from [] raw))

filter_sort-IsSorted :
    (req : QueryRequest) (ast : Option Node) (raw : List LogEntry)
    → IsSorted entry_less (filter_sort req ast raw)
unfolding filter_sort
filter_sort-IsSorted req ast raw =
    sort_by-IsSorted entry_less entry_order (keep (passes req ast) (dedup_from [] raw))

filter_sort-Distinct :
    (req : QueryRequest) (ast : Option Node) (raw : List LogEntry)
    → Distinct (ids (filter_sort req ast raw))
unfolding filter_sort
filter_sort-Distinct req ast raw =
    Distinct-sort (keep (passes req ast) (dedup_from [] raw))
      (Distinct-keep (passes req ast) (dedup_from [] raw) (Distinct-dedup_from [] raw))

page-IsPage :
    (req : QueryRequest) (ast : Option Node) (raw : List LogEntry)
    → IsPage req ast (page req.offset (effective_limit req.limit) (filter_sort req ast raw))
unfolding page
page-IsPage req ast raw =
    let found = filter_sort req ast raw in
    let m = to_nat (effective_limit req.limit) in
    let n = to_nat req.offset in
    record {
      all_pass =
          All-take_drop (λ e. passes req ast e ≡ true) m n found (filter_sort-All req ast raw);
      sorted =
          IsSorted-take entry_less m (drop n found)
            (IsSorted-drop entry_less n found (filter_sort-IsSorted req ast raw));
      distinct = Distinct-take-drop m n found (filter_sort-Distinct req ast raw);
      bounded = omega (arith, length-take m (drop n found));
      whole = refl;
    }

at_parse-eq-ok :
    (r : Result ParseError (Option Node)) (ast : Option Node) → at_parse r ≡ ok ast → r ≡ ok ast
unfolding at_parse
at_parse-eq-ok (ok a) ast h = cc
at_parse-eq-ok (err e) ast h = cc

guard-eq-ok {ℓ κ} :
    {E : Type ℓ} {A : Type κ} (b : Bool) (e : E) (r : Result E A) (a : A)
    → (if b then err e else r) ≡ ok a
    → r ≡ ok a
guard-eq-ok true e r a h = cc
guard-eq-ok false e r a h = h

module _ (codec : Codec) (lib : BloomLib) where
  open lib use {Filter}

  -- Entries are returned only if the query parses, and then every one of them passes the request's
  -- filters, they are newest first, no ID stands twice, and they are at most the limit.
  pub execute-IsPage :
      (idx : Index) (st : Store Filter) (ctx : Context) (req : QueryRequest) (r : QueryResult)
      → execute codec lib idx st ctx req ≡ ok r
      → (ast : Option Node) × (parse req.query_string ≡ ok ast) × IsPage req ast r
  unfolding execute
  execute-IsPage idx st ctx req r h =
      let h1 = guard-eq-ok (less req.limit (pos 0)) negative_limit _ r h in
      let h2 = guard-eq-ok (less req.offset (pos 0)) negative_offset _ r h1 in
      let h3 = guard-eq-ok ctx.canceled_at_start canceled _ r h2 in
      let (ast, parsed, h4) = >>=-eq-ok (at_parse (parse req.query_string)) _ r h3 in
      let (raw, read, h5) =
        >>=-eq-ok (read_candidates codec lib ctx st (candidate_paths codec lib idx st req ast)) _ r
          h4 in
      (
        ast,
        at_parse-eq-ok (parse req.query_string) ast parsed,
        subst (IsPage req ast) (ok-injective _ r h5) (page-IsPage req ast raw),
      )
