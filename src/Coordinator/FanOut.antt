-- ===== src/Coordinator/FanOut.antt =====
-- internal/coordinator/fanout.go and query_server.go: a query of the whole cluster.
pub mod Laws
use distributed_log_query_en.Prelude.{
  ℕ, suc, ◌+◌, ◌-◌, ◌^◌, Bool, not, ◌&&◌, Option, none, some, List, [], ◌∷◌, ◌==◌, ltb,
  if◌then◌else◌,
}
use distributed_log_query_en.Prelude.Text.{Text, text_key}
use distributed_log_query_en.Prelude.Int.{ℤ, pos, negsuc, less, int_key}
use distributed_log_query_en.Prelude.Dict.{Dict}
use distributed_log_query_en.Prelude.Result.{Result, ok, err}
use distributed_log_query_en.Types.{QueryRequest, QueryResult, to_int32}
use distributed_log_query_en.Metadata.State.{NodeRecord, ClusterState, status_is_healthy}
use distributed_log_query_en.Coordinator.Merge.{MergeOutput, NodeResult, merge_results}
use distributed_log_query_en.Coordinator.Cache.Key.{cache_key}
use distributed_log_query_en.Coordinator.Cache.{QueryCache, cached, store}

-- What `ctx.Err()` can say.
pub data ContextError : Type 0 where
  context_canceled deadline_exceeded : ContextError

-- The errors of `Execute`; a panic of the merge is one of them.
pub data FanOutError : Type 0 where
  ended_by : ContextError → FanOutError
  panicked : FanOutError

-- The addresses of the healthy nodes that have one, by node ID.
unfoldable pub targets : Dict Text NodeRecord → List (Text × Text)
targets [] = []
targets ((id, n) ∷ nodes) =
    if status_is_healthy n.status && not (n.address == [])
    then (id, n.address) ∷ targets nodes
    else targets nodes

-- int32 addition, which wraps
unfoldable pub add_int32 : ℤ → ℤ → ℤ
unfolding to_int32
add_int32 (pos a) (pos b) = to_int32 (a + b)
add_int32 (pos a) (negsuc b) = if ltb b a then pos (a - suc b) else negsuc (b - a)
add_int32 (negsuc a) (pos b) = if ltb a b then pos (b - suc a) else negsuc (a - b)
add_int32 (negsuc a) (negsuc b) = to_int32 (2 ^ 32 - suc a + (2 ^ 32 - suc b))

unfoldable pub client_limit : ℤ → ℤ
client_limit limit = if limit == pos 0 then pos 100 else limit

-- max(fanOutLimit, offset+clientLimit)
unfoldable pub node_limit : ℤ → ℤ → ℤ → ℤ
unfolding add_int32
node_limit fan_out_limit offset limit =
    let window = add_int32 offset limit in
    if less fan_out_limit window then window else fan_out_limit

unfoldable pub fan_request : ℤ → QueryRequest → QueryRequest
unfolding node_limit client_limit
fan_request fan_out_limit req = record req {
  limit = node_limit fan_out_limit req.offset (client_limit req.limit);
  offset = pos 0;
}

-- What a node says to a request, or the error of its connection or call.
abbrev pub Ask : Type 0
Ask = Text → QueryRequest → Result Text QueryResult

unfoldable pub node_part : Ask → QueryRequest → Text × Text → NodeResult
node_part ask req (id, address) = elim (ask address req) [
  | ok r ↦ record { node_id = id; entries = r.entries; total = r.total; error = none }
  | err e ↦ record { node_id = id; entries = []; total = pos 0; error = some e }
]

unfoldable pub node_parts : Ask → QueryRequest → List (Text × Text) → List NodeResult
unfolding node_part
node_parts ask req [] = []
node_parts ask req (t ∷ ts) = node_part ask req t ∷ node_parts ask req ts

unfoldable pub keep_result :
    Text → ℕ → QueryCache → Option MergeOutput → Result FanOutError QueryResult × QueryCache
keep_result key now c none = (err panicked, c)
keep_result key now c (some out) =
    let result : QueryResult = record {
      entries = out.entries;
      total = out.total;
      partial = out.partial;
    } in
    (ok result, (if out.partial then c else store key result now c))

-- The answers arrive in any order, which `arrive` gives. `ended` is what `ctx.Err()` says after all
-- have arrived, `started` and `now` the times of the two uses of the cache, and `sum` the hash of the
-- cache key.
unfoldable pub execute :
    Ask
    → (List NodeResult → List NodeResult)
    → ℤ
    → ClusterState
    → Option ContextError
    → ℕ
    → ℕ
    → (Text → Text)
    → QueryRequest
    → QueryCache
    → Result FanOutError QueryResult × QueryCache
execute ask arrive fan_out_limit cs ended started now sum req cache =
    let key = cache_key sum req in
    let (hit, c) = cached key started cache in
    elim hit [
      | some result ↦ (ok result, c)
      | none ↦ elim ended [
        | some e ↦ (err (ended_by e), c)
        | none ↦ keep_result key now c (
            merge_results
              (arrive (node_parts ask (fan_request fan_out_limit req) (targets cs.nodes)))
              req.offset (client_limit req.limit))
      ]
    ]

-- The gRPC status codes of query_server.go.
pub data QueryStatus : Type 0 where
  invalid_argument canceled deadline : QueryStatus
  panic : QueryStatus

unfoldable pub status_of : FanOutError → QueryStatus
status_of (ended_by context_canceled) = canceled
status_of (ended_by deadline_exceeded) = deadline
status_of panicked = panic

unfoldable pub answer_of :
    Result FanOutError QueryResult × QueryCache → Result QueryStatus QueryResult × QueryCache
unfolding status_of
answer_of (ok r, c) = (ok r, c)
answer_of (err e, c) = (err (status_of e), c)

unfoldable pub serve_query :
    Ask
    → (List NodeResult → List NodeResult)
    → ℤ
    → ClusterState
    → Option ContextError
    → ℕ
    → ℕ
    → (Text → Text)
    → QueryRequest
    → QueryCache
    → Result QueryStatus QueryResult × QueryCache
unfolding answer_of
serve_query ask arrive fan_out_limit cs ended started now sum req cache =
    if less req.limit (pos 0)
    then (err invalid_argument, cache)
    else if less req.offset (pos 0)
    then (err invalid_argument, cache)
    else answer_of (execute ask arrive fan_out_limit cs ended started now sum req cache)
