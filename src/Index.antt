-- ===== src/Index.antt =====
-- internal/index/index.go: the inverted index from tokens, services and namespaces to segments.
pub mod Posting
pub mod Coverage
pub mod Rebuild
pub mod Resolve
use distributed_log_query_en.Prelude.{
  ℕ, ◌≡◌, Bool, true, false, not, ◌&&◌, ◌||◌, Option, none, some, List, [], ◌∷◌, ◌++◌, ◌==◌, keep,
  length, if◌then◌else◌, or_else,
}
use distributed_log_query_en.Prelude.Text.{
  Text, text_key, to_lower, split_non_alphanumeric, text_less,
}
use distributed_log_query_en.Prelude.Dict.{Dict, get, put, delete, keys}
use distributed_log_query_en.Prelude.PathSet.{contains, insert, remove}
use distributed_log_query_en.Prelude.Int.{ℤ, less, pos}
use distributed_log_query_en.Prelude.Order.{sort_by}
use distributed_log_query_en.Prelude.Result.{Result, ok, err}
use distributed_log_query_en.Types.{LogEntry}

pub record SegmentMeta : Type 0 where
  pub min_time : ℤ
  pub max_time : ℤ

pub record Index : Type 0 where
  pub token_segments : Dict Text (List Text)
  pub service_segments : Dict Text (List Text)
  pub namespace_segments : Dict Text (List Text)
  pub segment_meta : Dict Text SegmentMeta

abbrev pub new_index : Index
new_index = record {
  token_segments = [];
  service_segments = [];
  namespace_segments = [];
  segment_meta = [];
}

-- The loop that drops the empty parts.
unfoldable pub nonempty_parts : List Text → List Text
nonempty_parts [] = []
nonempty_parts (p ∷ ps) = if p == [] then nonempty_parts ps else p ∷ nonempty_parts ps

unfoldable pub tokenize : Text → List Text
unfolding nonempty_parts
tokenize s = nonempty_parts (split_non_alphanumeric (to_lower s))

-- m[key] is made if it is missing, then the path is put into it.
unfoldable pub add_path : Text → Text → Dict Text (List Text) → Dict Text (List Text)
add_path key path m = put key (insert path (or_else (get key m) [])) m

unfoldable pub add_tokens : List Text → Text → Dict Text (List Text) → Dict Text (List Text)
unfolding add_path
add_tokens [] path m = m
add_tokens (tok ∷ toks) path m = add_tokens toks path (add_path tok path m)

unfoldable pub widen : Option SegmentMeta → ℤ → SegmentMeta
widen none t = record { min_time = t; max_time = t }
widen (some meta) t = record {
  min_time = if less t meta.min_time then t else meta.min_time;
  max_time = if less meta.max_time t then t else meta.max_time;
}

unfoldable pub add : LogEntry → Text → Index → Index
unfolding tokenize add_tokens widen
add e path idx = record {
  token_segments = add_tokens (tokenize e.message) path idx.token_segments;
  service_segments =
      if e.service == []
      then idx.service_segments
      else add_path e.service path idx.service_segments;
  namespace_segments = add_path e.namespace path idx.namespace_segments;
  segment_meta = put path (widen (get path idx.segment_meta) e.timestamp) idx.segment_meta;
}

-- The candidates that pass a list of required tokens; `none` is the early return of nil.
unfoldable pub by_tokens : Dict Text (List Text) → List Text → List Text → Option (List Text)
by_tokens m [] candidates = some candidates
by_tokens m (tok ∷ toks) candidates = elim (get tok m) [
  | none ↦ none
  | some segs ↦
      let left = keep (contains segs) candidates in
      elim left [ [] ↦ none | p ∷ ps ↦ by_tokens m toks (p ∷ ps) ]
]

-- The candidates that pass a required namespace or service, which is ignored if it is empty.
unfoldable pub by_name : Dict Text (List Text) → Text → List Text → Option (List Text)
by_name m name candidates =
    if name == []
    then some candidates
    else elim (get name m) [ none ↦ none | some segs ↦ some (keep (contains segs) candidates) ]

-- Whether the time range of the request may meet the one of the segment.
unfoldable pub in_range : ℤ → ℤ → SegmentMeta → Bool
in_range start_time end_time meta =
    not (less (pos 0) start_time && less meta.max_time start_time)
    && not (less (pos 0) end_time && less end_time meta.min_time)

-- A missing path would read as the zero bounds.
unfoldable pub path_in_range : Index → ℤ → ℤ → Text → Bool
unfolding in_range
path_in_range idx start_time end_time path =
    in_range start_time end_time
      (or_else (get path idx.segment_meta) (record { min_time = pos 0; max_time = pos 0 }))

unfoldable pub bind_paths :
    Option (List Text) → (List Text → Option (List Text)) → Option (List Text)
bind_paths none f = none
bind_paths (some ps) f = f ps

unfoldable pub sorted_paths : Option (List Text) → List Text
sorted_paths none = []
sorted_paths (some ps) = sort_by text_less ps

unfoldable pub resolve : Index → List Text → Text → Text → ℤ → ℤ → List Text
resolve idx tokens namespace service start_time end_time = sorted_paths (
    bind_paths (by_tokens idx.token_segments tokens (keys idx.segment_meta)) λ c1.
      bind_paths (by_name idx.namespace_segments namespace c1) λ c2.
        bind_paths (by_name idx.service_segments service c2)
          λ c3. some (keep (path_in_range idx start_time end_time) c3))

unfoldable pub token_count : Index → ℕ
token_count idx = length (keys idx.token_segments)

-- The path is taken out of every set, and a set that becomes empty is deleted.
unfoldable pub remove_path : Text → Dict Text (List Text) → Dict Text (List Text)
remove_path path [] = []
remove_path path ((key, segs) ∷ m) =
    let rest = remove_path path m in
    elim (remove path segs) [ [] ↦ rest | p ∷ ps ↦ (key, p ∷ ps) ∷ rest ]

unfoldable pub remove_segment : Text → Index → Index
unfolding remove_path
remove_segment path idx = record {
  token_segments = remove_path path idx.token_segments;
  service_segments = remove_path path idx.service_segments;
  namespace_segments = remove_path path idx.namespace_segments;
  segment_meta = delete path idx.segment_meta;
}

unfoldable pub add_all : List LogEntry → Text → Index → Index
add_all [] path idx = idx
add_all (e ∷ es) path idx = add_all es path (add e path idx)

module _ {ℓ} {E : Type ℓ} (read : Text → Result E (List LogEntry)) where
  unfoldable pub rebuild_from_segments : List Text → Index → Result E Index
  rebuild_from_segments [] idx = ok idx
  rebuild_from_segments (path ∷ paths) idx = elim (read path) [
    | err e ↦ err e
    | ok es ↦ rebuild_from_segments paths (add_all es path idx)
  ]
