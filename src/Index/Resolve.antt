-- ===== src/Index/Resolve.antt =====
-- What `Resolve` of internal/index/index.go returns, path by path.
use distributed_log_query_en.Prelude.{
  ◌≡◌, refl, Bool, ◌&&◌, ◌||◌, Option, none, some, List, [], ◌∷◌, ◌==◌, arith, keep, all_pass,
  or_else,
}
use distributed_log_query_en.Prelude.Text.{Text, text_key, text_less}
use distributed_log_query_en.Prelude.Dict.{Dict, get, keys}
use distributed_log_query_en.Prelude.PathSet.{contains, contains-keep}
use distributed_log_query_en.Prelude.Int.{ℤ}
use distributed_log_query_en.Prelude.Order.{contains-sort_by}
use distributed_log_query_en.Index.{
  Index, by_tokens, by_name, bind_paths, sorted_paths, path_in_range, resolve,
}

-- Whether a path is in the set that a map has for a key.
unfoldable pub posted : Dict Text (List Text) → Text → Text → Bool
posted m key path = contains (or_else (get key m) []) path

unfoldable pub named : Dict Text (List Text) → Text → Text → Bool
unfolding posted
named m name path = name == [] || posted m name path

found : Option (List Text) → Text → Bool
unfolding contains
found o path = contains (or_else o []) path

found-by_tokens :
    (m : Dict Text (List Text)) (toks cs : List Text) (p : Text)
    → found (by_tokens m toks cs) p ≡ (contains cs p && all_pass (λ t. posted m t p) toks)
unfolding by_tokens found all_pass posted
found-by_tokens m [] cs p = ground arith
found-by_tokens m (tok ∷ toks) cs p = ground (
  arith,
  contains-keep (contains (or_else (get tok m) [])) p cs,
  found-by_tokens m toks (keep (contains (or_else (get tok m) [])) cs) p,
)

found-by_name :
    (m : Dict Text (List Text)) (name : Text) (cs : List Text) (p : Text)
    → found (by_name m name cs) p ≡ (contains cs p && named m name p)
unfolding by_name found named
found-by_name m name cs p = ground (arith, contains-keep (contains (or_else (get name m) [])) p cs)

found-bind :
    (o : Option (List Text)) (f : List Text → Option (List Text)) (p : Text) (b : Bool)
    → ((cs : List Text) → found (f cs) p ≡ (contains cs p && b))
    → found (bind_paths o f) p ≡ (found o p && b)
unfolding found bind_paths
found-bind none f p b h = refl
found-bind (some cs) f p b h = h cs

contains-sorted_paths :
    (o : Option (List Text)) (p : Text) → contains (sorted_paths o) p ≡ found o p
unfolding sorted_paths found
contains-sorted_paths none p = refl
contains-sorted_paths (some cs) p = contains-sort_by text_less p cs

module _ (idx : Index) (start_time end_time : ℤ) (path : Text) where
  abbrev in_time : List Text → Option (List Text)
  in_time cs = some (keep (path_in_range idx start_time end_time) cs)

  found-in_time :
      (cs : List Text)
      → found (in_time cs) path ≡ (contains cs path && path_in_range idx start_time end_time path)
  unfolding found
  found-in_time cs = ground (arith, contains-keep (path_in_range idx start_time end_time) path cs)

  module _ (service : Text) where
    abbrev of_service : List Text → Option (List Text)
    of_service cs = bind_paths (by_name idx.service_segments service cs) in_time

    found-of_service :
        (cs : List Text)
        → found (of_service cs) path ≡ (
            contains cs path
            && (named idx.service_segments service path
                && path_in_range idx start_time end_time path))
    found-of_service cs = ground (
      arith,
      found-bind (by_name idx.service_segments service cs) in_time path
          (path_in_range idx start_time end_time path) found-in_time,
      found-by_name idx.service_segments service cs path,
    )

    module _ (namespace : Text) where
      abbrev of_namespace : List Text → Option (List Text)
      of_namespace cs = bind_paths (by_name idx.namespace_segments namespace cs) of_service

      found-of_namespace :
          (cs : List Text)
          → found (of_namespace cs) path ≡ (
              contains cs path
              && (named idx.namespace_segments namespace path
                  && (named idx.service_segments service path
                      && path_in_range idx start_time end_time path)))
      found-of_namespace cs = ground (
        arith,
        found-bind (by_name idx.namespace_segments namespace cs) of_service path
            (named idx.service_segments service path && path_in_range idx start_time end_time path)
            found-of_service,
        found-by_name idx.namespace_segments namespace cs path,
      )

-- A path is resolved exactly if its segment is known, holds each token, holds the namespace and the
-- service where they are not empty, and has time bounds that meet the requested range.
pub contains-resolve :
    (idx : Index) (tokens : List Text) (namespace service : Text) (start_time end_time : ℤ)
    (path : Text)
    → contains (resolve idx tokens namespace service start_time end_time) path ≡ (
        (((contains (keys idx.segment_meta) path
              && all_pass (λ t. posted idx.token_segments t path) tokens)
            && named idx.namespace_segments namespace path)
          && named idx.service_segments service path)
        && path_in_range idx start_time end_time path)
unfolding resolve
contains-resolve idx tokens namespace service start_time end_time path = ground (
  arith,
  contains-sorted_paths
      (bind_paths (by_tokens idx.token_segments tokens (keys idx.segment_meta))
        (of_namespace idx start_time end_time path service namespace))
      path,
  found-bind (by_tokens idx.token_segments tokens (keys idx.segment_meta))
      (of_namespace idx start_time end_time path service namespace) path
      (named idx.namespace_segments namespace path
        && (named idx.service_segments service path && path_in_range idx start_time end_time path))
      (found-of_namespace idx start_time end_time path service namespace),
  found-by_tokens idx.token_segments tokens (keys idx.segment_meta) path,
)
