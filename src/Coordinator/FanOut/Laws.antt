-- ===== src/Coordinator/FanOut/Laws.antt =====
-- What a query of the cluster returns, internal/coordinator/fanout.go and query_server.go.
use mathlib.Core.Path.{subst}
use distributed_log_query_en.Coordinator.Cache.Key.Laws.{asks, cache_key-shifted}
use distributed_log_query_en.Coordinator.Cache.Laws.{cached-store}
use distributed_log_query_en.Coordinator.Cache.Key.{cache_key}
use distributed_log_query_en.Coordinator.Merge.{merge_results}
use distributed_log_query_en.Coordinator.Merge.Results.{merge_results-IsMerged, IsMerged}
use distributed_log_query_en.Prelude.Result.{Result-cases, Result, err, ok}
use distributed_log_query_en.Coordinator.Merge.{MergeOutput}
use distributed_log_query_en.Coordinator.Cache.{store, cached, QueryCache}
use distributed_log_query_en.Prelude.Text.{text_key, Text}
use distributed_log_query_en.Metadata.State.{status_is_healthy, NodeRecord, ClusterState}
use distributed_log_query_en.Prelude.Int.{negsuc, less_irrefl, pos, less, ℤ}
use distributed_log_query_en.Types.{QueryResult, QueryRequest, to_int32}
use distributed_log_query_en.Coordinator.Merge.{NodeResult}
use distributed_log_query_en.Coordinator.FanOut.{
  node_part, deadline_exceeded, context_canceled, ended_by, FanOutError, panicked, status_of, panic,
  answer_of, ContextError, serve_query, client_limit, targets, fan_request, keep_result, node_parts,
  execute, add_int32, Ask, node_limit,
}
use distributed_log_query_en.Prelude.{
  ◌==◌, not, ◌&&◌, Bool, keep, [], sym, ◌∷◌, ◌++◌, inr, Option-cases, inl, Bool-cases, ◌∙◌, Option,
  ap, if◌then◌else◌, ◌%◌, arith, ◌≤◌, ◌<◌, ◌^◌, ◌+◌, ℕ, ◌≡◌, ◌≢◌, refl, false, none, some, List,
}

-- A node is asked for the whole window, offset and limit together, as long as the sum is an int32.
pub node_limit-window :
    (floor : ℤ) (offset limit : ℕ)
    → offset + limit < 2 ^ 31
    → less (node_limit floor (pos offset) (pos limit)) (pos (offset + limit)) ≡ false
unfolding node_limit add_int32 to_int32
node_limit-window floor offset limit small =
    let whole : (offset + limit) % 2 ^ 32 ≡ offset + limit = omega arith in
    ground (arith, less_irrefl (pos (offset + limit)), whole)

-- From there on the sum wraps to a negative number, and the nodes are asked for the floor alone.
pub node_limit_wraps :
    (floor offset limit : ℕ)
    → 2 ^ 31 ≤ offset + limit
    → offset + limit < 2 ^ 32
    → node_limit (pos floor) (pos offset) (pos limit) ≡ pos floor
unfolding node_limit add_int32 to_int32 less
node_limit_wraps floor offset limit large fits = ground arith

keep_result-whole :
    (key : Text) (now : ℕ) (c cache' : QueryCache) (o : Option MergeOutput) (r : QueryResult)
    → keep_result key now c o ≡ (ok r, cache')
    → r.partial ≡ false
    → cache' ≡ store key r now c
unfolding keep_result
keep_result-whole key now c cache' none r h whole = cc h
keep_result-whole key now c cache' (some out) r h whole = elim (Bool-cases out.partial) [
  | inl p ↦ cc (h, whole, p)
  | inr p ↦ cc (h, p)
]

not_negative : (z : ℤ) → less z (pos 0) ≡ false → (n : ℕ) × (z ≡ pos n)
unfolding less
not_negative (pos n) h = (n, refl)
not_negative (negsuc n) h = cc h

answer_of-panic :
    (x : Result FanOutError QueryResult) (c : QueryCache)
    → (answer_of (x, c)).0 ≡ err panic
    → x ≡ err panicked
unfolding answer_of status_of
answer_of-panic (ok r) c h = cc h
answer_of-panic (err (ended_by context_canceled)) c h = cc h
answer_of-panic (err (ended_by deadline_exceeded)) c h = cc h
answer_of-panic (err panicked) c h = refl

-- The nodes that a query is for.
abbrev pub is_asked : Text × NodeRecord → Bool
is_asked (id, n) = status_is_healthy n.status && not (n.address == [])

-- What counts as the part of a node that answered so.
abbrev pub replied : Text → Result Text QueryResult → NodeResult
replied id (ok r) = record { node_id = id; entries = r.entries; total = r.total; error = none }
replied id (err e) = record { node_id = id; entries = []; total = pos 0; error = some e }

-- The parts of all of these nodes.
abbrev pub replies : Ask → QueryRequest → List (Text × NodeRecord) → List NodeResult
replies ask req [] = []
replies ask req ((id, n) ∷ nodes) = replied id (ask n.address req) ∷ replies ask req nodes

node_part-replied :
    (ask : Ask) (req : QueryRequest) (id address : Text)
    → node_part ask req (id, address) ≡ replied id (ask address req)
unfolding node_part
node_part-replied ask req id address = elim (Result-cases (ask address req)) [
  | inl (r, e) ↦ rw (node_part, e) refl
  | inr (x, e) ↦ rw (node_part, e) refl
]

node_parts-replies :
    (ask : Ask) (req : QueryRequest) (nodes : List (Text × NodeRecord))
    → node_parts ask req (targets nodes) ≡ replies ask req (keep is_asked nodes)
unfolding node_parts targets keep
node_parts-replies ask req [] = refl
node_parts-replies ask req ((id, n) ∷ nodes) =
    ground (arith, node_part-replied ask req id n.address, node_parts-replies ask req nodes)

module _ (ask : Ask) (arrive : List NodeResult → List NodeResult) (fan_out_limit : ℤ)
    (cs : ClusterState) (started now : ℕ) (sum : Text → Text) where
  abbrev parts : QueryRequest → List NodeResult
  parts req = arrive (node_parts ask (fan_request fan_out_limit req) (targets cs.nodes))

  -- A query that the cache does not answer and that is not canceled gets the merge of what exactly the
  -- healthy nodes with an address answered, and the result is cached exactly if no node failed. Each of
  -- them is asked the request itself from the first entry on, with a limit that covers the whole window
  -- of the client, so long as the window ends below 2 ^ 31.
  pub execute-IsMerged :
      (req : QueryRequest) (cache : QueryCache) (off window : ℕ)
      → req.offset ≡ pos off
      → client_limit req.limit ≡ pos window
      → off + window < 2 ^ 31
      → (cached (cache_key sum req) started cache).0 ≡ none
      → (limit : ℤ) × (r : QueryResult) × (out : MergeOutput) × (less limit (pos (off + window))
          ≡ false)
        × (execute ask arrive fan_out_limit cs none started now sum req cache ≡ (
          ok r,
          (if out.partial
              then (cached (cache_key sum req) started cache).1
              else store (cache_key sum req) r now (cached (cache_key sum req) started cache).1),
        ))
        × IsMerged
            (arrive
              (replies ask (record req { limit = limit; offset = pos 0 }) (keep is_asked cs.nodes)))
            off
            (pos window)
            out
        × (r ≡ record { entries = out.entries; total = out.total; partial = out.partial })
  unfolding execute keep_result fan_request
  execute-IsMerged req cache off window o w fits miss =
      let limit = node_limit fan_out_limit req.offset (client_limit req.limit) in
      let asked : QueryRequest = record req { limit = limit; offset = pos 0 } in
      let (out, merged, is) = merge_results-IsMerged (parts req) off (client_limit req.limit) in
      let all = ap (λ n. merge_results (parts req) n (client_limit req.limit)) o ∙ merged in
      let same : parts req ≡ arrive (replies ask asked (keep is_asked cs.nodes)) =
        ap arrive (node_parts-replies ask asked cs.nodes) in
      (
        limit,
        record { entries = out.entries; total = out.total; partial = out.partial },
        out,
        ap (λ l. less l (pos (off + window))) (cc (o, w))
            ∙ node_limit-window fan_out_limit off window fits,
        rw (execute, miss, all, keep_result) refl,
        subst (λ ps. IsMerged ps off (pos window) out) same
            (subst (λ l. IsMerged (parts req) off l out) w is),
        refl,
      )

  whole_result-cached :
      (req : QueryRequest) (cache cache' : QueryCache) (r : QueryResult)
      (ended : Option ContextError) (later : ℕ)
      → (cached (cache_key sum req) started cache).0 ≡ none
      → execute ask arrive fan_out_limit cs ended started now sum req cache ≡ (ok r, cache')
      → r.partial ≡ false
      → later ≤ now + (cached (cache_key sum req) started cache).1.ttl
      → (cached (cache_key sum req) later cache').0 ≡ some r
  unfolding execute
  whole_result-cached req cache cache' r none later miss h whole soon =
      let stored =
        keep_result-whole (cache_key sum req) now (cached (cache_key sum req) started cache).1
          cache' (merge_results (parts req) req.offset (client_limit req.limit)) r
          (rw (execute, miss) at h) whole in
      rw stored (
        cached-store (cache_key sum req) r now later (cached (cache_key sum req) started cache).1
          soon)
  whole_result-cached req cache cache' r (some e) later miss h whole soon =
      cc (rw (execute, miss) at h)

  -- A whole result that was not cached before is the answer to the next request, if that has the same
  -- cache key and comes before the time to live is over, with no other use of the cache in between,
  -- whatever the nodes would answer then.
  pub cached-execute :
      (ask' : Ask) (arrive' : List NodeResult → List NodeResult) (limit' : ℤ) (cs' : ClusterState)
      (ended ended' : Option ContextError) (later now' : ℕ) (req req' : QueryRequest)
      (cache cache' : QueryCache) (r : QueryResult)
      → (cached (cache_key sum req) started cache).0 ≡ none
      → execute ask arrive fan_out_limit cs ended started now sum req cache ≡ (ok r, cache')
      → r.partial ≡ false
      → later ≤ now + (cached (cache_key sum req) started cache).1.ttl
      → cache_key sum req' ≡ cache_key sum req
      → execute ask' arrive' limit' cs' ended' later now' sum req' cache'
        ≡ (ok r, (cached (cache_key sum req') later cache').1)
  unfolding execute
  cached-execute ask' arrive' limit' cs' ended ended' later now' req req' cache cache' r miss h
        whole soon same =
      let hit = whole_result-cached req cache cache' r ended later miss h whole soon in
      let hit' : (cached (cache_key sum req') later cache').0 ≡ some r =
        ap (λ k. (cached k later cache').0) same ∙ hit in
      rw (execute, hit') refl

  -- So a request can get the answer to another one: what was answered for a namespace that ends in a
  -- vertical bar and some text answers the request in which that text stands before the service
  -- instead, as long as the answer is whole and fresh, whatever the hash and the nodes say.
  pub execute_wrong_answer :
      (ask' : Ask) (arrive' : List NodeResult → List NodeResult) (limit' : ℤ) (cs' : ClusterState)
      (ended ended' : Option ContextError) (later now' : ℕ) (base : QueryRequest)
      (namespace between service : Text) (cache cache' : QueryCache) (r : QueryResult)
      → (cached (cache_key sum (asks base (namespace ++ b'|' ∷ between) service)) started cache).0
        ≡ none
      → execute ask arrive fan_out_limit cs ended started now sum
          (asks base (namespace ++ b'|' ∷ between) service)
          cache
        ≡ (ok r, cache')
      → r.partial ≡ false
      → later
        ≤ now
          + (cached
              (cache_key sum (asks base (namespace ++ b'|' ∷ between) service))
              started
              cache).1.ttl
      → (cache'' : QueryCache) × (execute ask' arrive' limit' cs' ended' later now' sum
            (asks base namespace (between ++ b'|' ∷ service))
            cache'
          ≡ (ok r, cache''))
  execute_wrong_answer ask' arrive' limit' cs' ended ended' later now' base namespace between
        service cache cache' r miss ran whole soon =
      let req = asks base (namespace ++ b'|' ∷ between) service in
      let req' = asks base namespace (between ++ b'|' ∷ service) in
      (
        (cached (cache_key sum req') later cache').1,
        cached-execute ask' arrive' limit' cs' ended ended' later now' req req' cache cache' r miss
            ran whole soon (sym (cache_key-shifted sum base namespace between service)),
      )

  execute_no_panic :
      (req : QueryRequest) (cache : QueryCache) (ended : Option ContextError) (off : ℕ)
      → req.offset ≡ pos off
      → (execute ask arrive fan_out_limit cs ended started now sum req cache).0 ≢ err panicked
  unfolding execute keep_result
  execute_no_panic req cache ended off o h =
      elim (Option-cases (cached (cache_key sum req) started cache).0) [
        | inr (r, hit) ↦ cc (rw (execute, hit) at h)
        | inl miss ↦ elim (Option-cases ended) [
          | inr (e, late) ↦ cc (rw (execute, miss, late) at h)
          | inl in_time ↦
              let (out, merged, is) =
                merge_results-IsMerged (parts req) off (client_limit req.limit) in
              let all = ap (λ n. merge_results (parts req) n (client_limit req.limit)) o ∙ merged in
              cc (rw (execute, miss, in_time, all, keep_result) at h)
        ]
      ]

  -- The server never panics: it refuses the requests on which the merge would.
  pub serve_query_no_panic :
      (req : QueryRequest) (cache : QueryCache) (ended : Option ContextError)
      → (serve_query ask arrive fan_out_limit cs ended started now sum req cache).0 ≢ err panic
  unfolding serve_query
  serve_query_no_panic req cache ended h = elim (Bool-cases (less req.limit (pos 0))) [
    | inl low ↦ cc (rw (serve_query, low) at h)
    | inr fine ↦ elim (Bool-cases (less req.offset (pos 0))) [
      | inl low ↦ cc (rw (serve_query, fine, low) at h)
      | inr at_least ↦
          let (off, o) = not_negative req.offset at_least in
          execute_no_panic req cache ended off o (
            answer_of-panic (execute ask arrive fan_out_limit cs ended started now sum req cache).0
              (execute ask arrive fan_out_limit cs ended started now sum req cache).1
              (rw (serve_query, fine, at_least) at h))
    ]
  ]
