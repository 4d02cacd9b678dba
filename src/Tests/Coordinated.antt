-- ===== src/Tests/Coordinated.antt =====
-- Runs of the coordinator's cache and fan-out at concrete inputs.
use distributed_log_query_en.Coordinator.Cache.Key.Laws.{cache_key-injective, IsPlain}
use distributed_log_query_en.Coordinator.Cache.Key.{cache_key}
use distributed_log_query_en.Coordinator.Merge.Results.{IsMerged}
use distributed_log_query_en.Coordinator.FanOut.Laws.{
  is_asked, replies, execute_wrong_answer, execute-IsMerged, serve_query_no_panic, node_limit_wraps,
  cached-execute,
}
use distributed_log_query_en.Prelude.Result.{err, ok}
use distributed_log_query_en.Coordinator.Merge.{MergeOutput, NodeResult}
use distributed_log_query_en.Metadata.State.{unhealthy, healthy, ClusterState}
use distributed_log_query_en.Coordinator.FanOut.{
  client_limit, targets, fan_request, node_parts, panic, execute, serve_query, Ask, node_limit,
}
use distributed_log_query_en.Prelude.Int.{int_eqb, ℤ, pos, less}
use distributed_log_query_en.Coordinator.Cache.Laws.{
  is_victim, cached-store, store-IsCache, IsCache,
}
use distributed_log_query_en.Coordinator.Cache.{
  evict_lru, item, new_query_cache, store, cached, QueryCache,
}
use distributed_log_query_en.Types.{QueryRequest, QueryResult}
use distributed_log_query_en.Prelude.{
  ◌||◌, init, ◌==◌, not, keep, if◌then◌else◌, arith, ◌≡◌, ◌≢◌, refl, true, false, List, [], ◌∷◌,
  none, some,
}
use distributed_log_query_en.Prelude.Text.{text_eqb, Text, text, text_key}
use distributed_log_query_en.Tests.Toy.{sample}

abbrev one_result : QueryResult
one_result = record { entries = sample (text "a") ∷ []; total = pos 1; partial = false }

abbrev small_cache : QueryCache
small_cache = store (text "k1") one_result 10 (new_query_cache 30 2)

small_cache-IsCache : IsCache small_cache
small_cache-IsCache =
    (store-IsCache (text "k1") one_result 10 (new_query_cache 30 2) (omega arith)
      (record { unique = tt; within = omega arith })).0

-- Two entries, and no room for another.
abbrev full_cache : QueryCache
full_cache = store (text "k2") one_result 11 small_cache

full_cache-IsCache : IsCache full_cache
full_cache-IsCache =
    (store-IsCache (text "k2") one_result 11 small_cache (unfold store item in omega arith)
      small_cache-IsCache).0

store-IsCache_example :
    IsCache (store (text "k3") one_result 12 full_cache)
    × ((store (text "k3") one_result 12 full_cache).entries
        ≡ record { key = text "k3"; result = one_result; inserted_at = 12 }
          ∷ keep
              (λ e. not (e.key == text "k3" || is_victim e.key (text "k3") full_cache))
              full_cache.entries)
unfolding text_eqb
store-IsCache_example =
    store-IsCache (text "k3") one_result 12 full_cache (unfold store item in omega arith)
      full_cache-IsCache

-- The older of the two keys is gone, and the other is not.
left_in :
    (item (text "k1") (store (text "k3") one_result 12 full_cache).entries ≡ none)
    × (item (text "k2") (store (text "k3") one_result 12 full_cache).entries
        ≡ some (record { key = text "k2"; result = one_result; inserted_at = 11 }))
unfolding store item text_eqb evict_lru init
left_in = (refl, refl)

cached-store_example :
    (cached (text "k1") 40 (store (text "k1") one_result 10 (new_query_cache 30 2))).0
    ≡ some one_result
cached-store_example =
    cached-store (text "k1") one_result 10 40 (new_query_cache 30 2) (omega arith)

node_limit_wraps_example : node_limit (pos 1000) (pos 2147483647) (pos 100) ≡ pos 1000
node_limit_wraps_example = node_limit_wraps 1000 2147483647 100 (omega arith) (omega arith)

-- Two nodes, of which one is down.
abbrev two_nodes : ClusterState
two_nodes = record {
  nodes =
      (
        text "n1",
        record {
          id = text "n1";
          address = text "h1";
          shards = [];
          status = healthy;
          last_seen = pos 0;
        },
      )
      ∷ (
        text "n2",
        record {
          id = text "n2";
          address = text "h2";
          shards = [];
          status = unhealthy;
          last_seen = pos 0;
        },
      )
      ∷ [];
  shards = [];
}

abbrev ask_any : Ask
ask_any address req = ok one_result

abbrev as_sent : List NodeResult → List NodeResult
as_sent ps = ps

abbrev request : QueryRequest
request = record {
  query_string = text "disk";
  namespace = [];
  service = [];
  start_time = pos 0;
  end_time = pos 0;
  limit = pos 5;
  offset = pos 0;
}

abbrev empty_cache : QueryCache
empty_cache = new_query_cache 30 2

-- A hash that keeps its text.
abbrev same_text : Text → Text
same_text s = s

execute-IsMerged_example :
    (limit : ℤ) × (r : QueryResult) × (out : MergeOutput) × (less limit (pos 5) ≡ false)
    × (execute ask_any as_sent (pos 10) two_nodes none 1 2 same_text request empty_cache ≡ (
      ok r,
      (if out.partial
          then (cached (cache_key same_text request) 1 empty_cache).1
          else store
              (cache_key same_text request)
              r
              2
              (cached (cache_key same_text request) 1 empty_cache).1),
    ))
    × IsMerged
        (as_sent (
          replies ask_any
            (record request { limit = limit; offset = pos 0 })
            (keep is_asked two_nodes.nodes)))
        0
        (pos 5)
        out
    × (r ≡ record { entries = out.entries; total = out.total; partial = out.partial })
execute-IsMerged_example =
    execute-IsMerged ask_any as_sent (pos 10) two_nodes 1 2 same_text request empty_cache 0 5 refl
      (unfold client_limit int_eqb in refl) (omega arith) (unfold cached item in refl)

serve_query_no_panic_example :
    (serve_query ask_any as_sent (pos 10) two_nodes none 1 2 same_text request empty_cache).0
    ≢ err panic
serve_query_no_panic_example =
    serve_query_no_panic ask_any as_sent (pos 10) two_nodes 1 2 same_text request empty_cache none

abbrev kept_cache : QueryCache
kept_cache = store (cache_key same_text request) one_result 2 empty_cache

ran :
    execute ask_any as_sent (pos 10) two_nodes none 1 2 same_text request empty_cache
    ≡ (ok one_result, kept_cache)
unfolding execute cached item distributed_log_query_en.Coordinator.FanOut.keep_result
    distributed_log_query_en.Coordinator.Merge.merge_results
    distributed_log_query_en.Coordinator.Merge.merge_output
    distributed_log_query_en.Coordinator.Merge.slice_from
    distributed_log_query_en.Coordinator.Merge.cut_to distributed_log_query_en.Types.to_int32
    distributed_log_query_en.Coordinator.Merge.merge_parts store client_limit
    distributed_log_query_en.Prelude.Order.sort_by node_parts
    distributed_log_query_en.Prelude.Int.int_eqb targets
    distributed_log_query_en.Prelude.Text.text_eqb distributed_log_query_en.Prelude.PathSet.contains
ran = refl

cached-execute_example :
    execute ask_any as_sent (pos 10) two_nodes none 32 40 same_text request kept_cache
    ≡ (ok one_result, (cached (cache_key same_text request) 32 kept_cache).1)
cached-execute_example =
    cached-execute ask_any as_sent (pos 10) two_nodes 1 2 same_text ask_any as_sent (pos 10)
      two_nodes none none 32 40 request request empty_cache kept_cache one_result
      (unfold cached item in refl) ran refl (unfold cached item in omega arith) refl

-- Service "s" in the namespace "a|b".
abbrev in_a_b : QueryRequest
in_a_b = record request { namespace = text "a|b"; service = text "s" }

-- Service "b|s" in the namespace "a".
abbrev in_a : QueryRequest
in_a = record request { namespace = text "a"; service = text "b|s" }

ran_in_a_b :
    execute ask_any as_sent (pos 10) two_nodes none 1 2 same_text in_a_b empty_cache
    ≡ (ok one_result, store (cache_key same_text in_a_b) one_result 2 empty_cache)
unfolding execute cached item distributed_log_query_en.Coordinator.FanOut.keep_result
    distributed_log_query_en.Coordinator.Merge.merge_results
    distributed_log_query_en.Coordinator.Merge.merge_output
    distributed_log_query_en.Coordinator.Merge.slice_from
    distributed_log_query_en.Coordinator.Merge.cut_to distributed_log_query_en.Types.to_int32
    distributed_log_query_en.Coordinator.Merge.merge_parts store client_limit
    distributed_log_query_en.Prelude.Order.sort_by node_parts
    distributed_log_query_en.Prelude.Int.int_eqb targets
    distributed_log_query_en.Prelude.Text.text_eqb distributed_log_query_en.Prelude.PathSet.contains
ran_in_a_b = refl

abbrev ask_none : Ask
ask_none address req = ok (record { entries = []; total = pos 0; partial = false })

execute_wrong_answer_example :
    (cache'' : QueryCache) × (execute ask_none as_sent
        (pos 10)
        two_nodes
        none
        3
        4
        same_text
        in_a
        (store (cache_key same_text in_a_b) one_result 2 empty_cache)
      ≡ (ok one_result, cache''))
execute_wrong_answer_example =
    execute_wrong_answer ask_any as_sent (pos 10) two_nodes 1 2 same_text ask_none as_sent (pos 10)
      two_nodes none none 3 4 request (text "a") (text "b") (text "s") empty_cache
      (store (cache_key same_text in_a_b) one_result 2 empty_cache) one_result
      (unfold cached item in refl) ran_in_a_b refl (unfold cached item in omega arith)

IsPlain-in_s : IsPlain (record request { service = text "s" })
IsPlain-in_s = record {
  query = (λ e. omega arith, (λ e. omega arith, (λ e. omega arith, (λ e. omega arith, tt))));
  namespace = tt;
  service = ((λ e. omega arith), tt);
  starts = omega arith;
  ends = omega arith;
  limits = omega arith;
  offsets = omega arith;
}

cache_key-injective_example :
    record request { service = text "s" } ≡ record request { service = text "s" }
cache_key-injective_example =
    cache_key-injective same_text (record request { service = text "s" })
      (record request { service = text "s" }) IsPlain-in_s IsPlain-in_s (λ h. h) refl
