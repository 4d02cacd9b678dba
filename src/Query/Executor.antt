-- ===== src/Query/Executor.antt =====
-- `LocalExecutor.Execute` of internal/query/executor.go.
pub mod Complete
pub mod Results
pub mod Reads
use distributed_log_query_en.Prelude.{
  ℕ, Bool, true, false, not, ◌&&◌, ◌||◌, Option, none, some, List, [], ◌∷◌, ◌==◌, keep, length,
  take, drop, if◌then◌else◌,
}
use distributed_log_query_en.Prelude.Text.{Text, text_key, text_less}
use distributed_log_query_en.Prelude.PathSet.{contains}
use distributed_log_query_en.Prelude.Int.{ℤ, pos, negsuc, less, int_key}
use distributed_log_query_en.Prelude.Order.{sort_by}
use distributed_log_query_en.Prelude.Result.{Result, ok, err, ◌>>=◌}
use distributed_log_query_en.Entries.{dedup_from, entry_less}
use distributed_log_query_en.Types.{LogEntry, QueryRequest, QueryResult, Codec, to_int32}
use distributed_log_query_en.Storage.Bloom.{BloomLib}
use distributed_log_query_en.Storage.Manager.{Store, bloom_for}
use distributed_log_query_en.Storage.Read.{ReadError, read_segments}
use distributed_log_query_en.Index.{Index, resolve}
use distributed_log_query_en.Query.Parser.{Node, ParseError, parse}
use distributed_log_query_en.Query.Match.{matches, index_tokens, bloom_definite_miss}

pub data QueryError : Type 0 where
  negative_limit negative_offset canceled canceled_before_read : QueryError
  parse_failed : ParseError → QueryError
  read_failed : ReadError → QueryError

-- What `ctx.Err()` says at its two calls.
pub record Context : Type 0 where
  pub canceled_at_start : Bool
  pub canceled_at_read : Bool

abbrev pub default_limit : ℤ
default_limit = pos 100

unfoldable pub passes : QueryRequest → Option Node → LogEntry → Bool
passes req ast e =
    (req.namespace == [] || e.namespace == req.namespace)
    && (req.service == [] || e.service == req.service)
    && matches e ast
    && not (less (pos 0) req.start_time && less e.timestamp req.start_time)
    && not (less (pos 0) req.end_time && less req.end_time e.timestamp)

unfoldable pub filter_sort : QueryRequest → Option Node → List LogEntry → List LogEntry
unfolding dedup_from passes entry_less
filter_sort req ast raw = sort_by entry_less (keep (passes req ast) (dedup_from [] raw))

-- int(n) where n is known not to be negative
abbrev pub to_nat : ℤ → ℕ
to_nat (pos n) = n
to_nat (negsuc _) = 0

unfoldable pub page : ℤ → ℤ → List LogEntry → QueryResult
page offset limit es = record {
  entries = take (to_nat limit) (drop (to_nat offset) es);
  total = to_int32 (length es);
  partial = false;
}

unfoldable pub effective_limit : ℤ → ℤ
effective_limit limit = if limit == pos 0 then default_limit else limit

unfoldable pub at_parse : Result ParseError (Option Node) → Result QueryError (Option Node)
at_parse (ok ast) = ok ast
at_parse (err e) = err (parse_failed e)

unfoldable pub at_read : Result ReadError (List LogEntry) → Result QueryError (List LogEntry)
at_read (ok es) = ok es
at_read (err e) = err (read_failed e)

module _ (codec : Codec) (lib : BloomLib) where
  open lib use {Filter}

  -- Whether the sidecar of a segment rules out that the tree matches there.
  unfoldable pub bloom_skips : Option Filter → Option Node → Bool
  bloom_skips none ast = false
  bloom_skips (some bf) none = false
  bloom_skips (some bf) (some node) = bloom_definite_miss lib bf node

  unfoldable pub candidate_paths : Index → Store Filter → QueryRequest → Option Node → List Text
  unfolding bloom_skips
  candidate_paths idx (m, d) req ast =
      keep (λ p. not (bloom_skips (bloom_for m p) ast))
        (resolve idx (index_tokens ast) req.namespace req.service req.start_time req.end_time)

  unfoldable pub read_candidates :
      Context → Store Filter → List Text → Result QueryError (List LogEntry)
  unfolding at_read
  read_candidates ctx st [] = ok []
  read_candidates ctx (m, d) (p ∷ ps) =
      if ctx.canceled_at_read
      then err canceled_before_read
      else at_read (read_segments codec d (p ∷ ps))

  unfoldable pub execute :
      Index → Store Filter → Context → QueryRequest → Result QueryError QueryResult
  unfolding at_parse effective_limit
  execute idx st ctx req =
      if less req.limit (pos 0)
      then err negative_limit
      else if less req.offset (pos 0)
      then err negative_offset
      else if ctx.canceled_at_start
      then err canceled
      else (do
        ast ← at_parse (parse req.query_string)
        raw ← read_candidates ctx st (candidate_paths idx st req ast)
        ok (page req.offset (effective_limit req.limit) (filter_sort req ast raw)))
