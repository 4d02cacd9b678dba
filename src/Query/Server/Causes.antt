-- ===== src/Query/Server/Causes.antt =====
-- What the statuses of internal/query/server.go mean.
use distributed_log_query_en.Query.Executor.{canceled}
use distributed_log_query_en.Query.Executor.{execute, candidate_paths}
use distributed_log_query_en.Prelude.{◌≢◌, [], ◌∷◌}
use distributed_log_query_en.Prelude.Int.{pos, less}
use distributed_log_query_en.Prelude.Text.{Text}
use distributed_log_query_en.Storage.Manager.{Store}
use distributed_log_query_en.Index.{Index}
use distributed_log_query_en.Query.Server.{
  by_deadline, by_cancel, Status, respond, error_status, context_status, internal, ContextEnd,
  query,
}
use distributed_log_query_en.Storage.Bloom.{BloomLib}
use distributed_log_query_en.Storage.Read.{read_segments, ReadError}
use distributed_log_query_en.Query.Parser.{parse, Node, ParseError}
use distributed_log_query_en.Types.{QueryResult, QueryRequest, LogEntry, Codec}
use distributed_log_query_en.Query.Executor.{
  canceled_before_read, Context, read_failed, read_candidates, parse_failed, at_read, at_parse,
  QueryError,
}
use distributed_log_query_en.Prelude.{
  Bool-cases, ◌∷◌, List, Option, ◌≡◌, refl, false, ◌⊎◌, inl, inr,
}
use distributed_log_query_en.Prelude.Result.{Result-cases, Result, ok, err, ◌>>=◌}

>>=-eq-err {ℓ κ μ} :
    {E : Type ℓ} {A : Type κ} {B : Type μ} (m : Result E A) (f : A → Result E B) (e : E)
    → (m >>= f) ≡ err e
    → (m ≡ err e) ⊎ ((a : A) × (m ≡ ok a) × (f a ≡ err e))
>>=-eq-err (ok a) f e h = inr (a, refl, h)
>>=-eq-err (err x) f e h = inl (cc h)

-- A parse error or a read error.
abbrev pub Cause : QueryError → Type 0
Cause e = ((p : ParseError) × (e ≡ parse_failed p)) ⊎ ((r : ReadError) × (e ≡ read_failed r))

at_parse-Cause :
    (r : Result ParseError (Option Node)) (e : QueryError) → at_parse r ≡ err e → Cause e
unfolding at_parse
at_parse-Cause (ok a) e h = cc h
at_parse-Cause (err p) e h = inl (p, cc h)

at_read-Cause :
    (r : Result ReadError (List LogEntry)) (e : QueryError) → at_read r ≡ err e → Cause e
unfolding at_read
at_read-Cause (ok a) e h = cc h
at_read-Cause (err x) e h = inr (x, cc h)

context_status-not_internal : (end : ContextEnd) → context_status end ≢ internal
unfolding context_status
context_status-not_internal by_cancel h = cc h
context_status-not_internal by_deadline h = cc h

not_context :
    (end : ContextEnd) (e : QueryError)
    → Cause e ⊎ ((e ≡ canceled) ⊎ (e ≡ canceled_before_read))
    → Path (Result Status QueryResult) (err (error_status end e)) (err internal)
    → Cause e
unfolding error_status
not_context end e (inl c) h = c
not_context end e (inr (inl is)) h = absurd (context_status-not_internal end (cc (is, h)))
not_context end e (inr (inr is)) h = absurd (context_status-not_internal end (cc (is, h)))

module _ (codec : Codec) (lib : BloomLib) where
  open lib use {Filter}

  read_candidates-Cause :
      (ctx : Context) (st : Store Filter) (ps : List Text) (e : QueryError)
      → read_candidates codec lib ctx st ps ≡ err e
      → Cause e ⊎ (e ≡ canceled_before_read)
  unfolding read_candidates
  read_candidates-Cause ctx st [] e h = cc h
  read_candidates-Cause ctx (m, d) (p ∷ ps) e h = elim (Bool-cases ctx.canceled_at_read) [
    | inl late ↦ inr (cc (rw (read_candidates, late) at h))
    | inr in_time ↦
        inl (at_read-Cause (read_segments codec d (p ∷ ps)) e (rw (read_candidates, in_time) at h))
  ]

  execute-Cause :
      (idx : Index) (st : Store Filter) (ctx : Context) (req : QueryRequest) (e : QueryError)
      → less req.limit (pos 0) ≡ false
      → less req.offset (pos 0) ≡ false
      → execute codec lib idx st ctx req ≡ err e
      → Cause e ⊎ ((e ≡ canceled) ⊎ (e ≡ canceled_before_read))
  unfolding execute read_candidates
  execute-Cause idx st ctx req e l o h = elim (Bool-cases ctx.canceled_at_start) [
    | inl ended ↦ inr (inl (cc (rw (execute, l, o, ended) at h)))
    | inr running ↦
        elim (>>=-eq-err (at_parse (parse req.query_string)) _ e
          (rw (execute, l, o, running) at h)) [
            | inl bad ↦ inl (at_parse-Cause (parse req.query_string) e bad)
            | inr (ast, parsed, rest) ↦
                elim (>>=-eq-err
                  (read_candidates codec lib ctx st (candidate_paths codec lib idx st req ast)) _ e
                  rest) [
                    | inl unread ↦ elim (read_candidates-Cause ctx st _ e unread) [
                      | inl c ↦ inl c
                      | inr late ↦ inr (inr late)
                    ]
                    | inr (raw, read, done) ↦ cc done
                  ]
          ]
  ]

  -- The service answers with the status Internal only when the executor failed on a query that does
  -- not parse or on a segment that cannot be read.
  pub query-internal :
      (idx : Index) (st : Store Filter) (ctx : Context) (end : ContextEnd) (req : QueryRequest)
      → query codec lib idx st ctx end req ≡ err internal
      → (e : QueryError) × (execute codec lib idx st ctx req ≡ err e) × Cause e
  unfolding query respond
  query-internal idx st ctx end req h = elim (Bool-cases (less req.limit (pos 0))) [
    | inl low ↦ cc (rw (query, low) at h)
    | inr l ↦ elim (Bool-cases (less req.offset (pos 0))) [
      | inl low ↦ cc (rw (query, l, low) at h)
      | inr o ↦ elim (Result-cases (execute codec lib idx st ctx req)) [
        | inl (r, done) ↦ cc (rw (query, l, o, done, respond) at h)
        | inr (e, failed) ↦ (
          e,
          failed,
          not_context end e (execute-Cause idx st ctx req e l o failed)
              (rw (query, l, o, failed, respond) at h),
        )
      ]
    ]
  ]
