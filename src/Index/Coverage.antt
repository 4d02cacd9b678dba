-- ===== src/Index/Coverage.antt =====
-- Which entries the index of internal/index/index.go knows, and that `Resolve` never misses one.
use distributed_log_query_en.Prelude.{
  ◌≡◌, ◌≢◌, refl, true, false, ◌&&◌, ◌||◌, none, some, List, [], ◌∷◌, ◌==◌, arith, all_pass,
  if◌then◌else◌, ==_refl, All,
}
use distributed_log_query_en.Prelude.Text.{Text, text_key}
use distributed_log_query_en.Prelude.Dict.{get, get-put, get-delete, keys-get}
use distributed_log_query_en.Prelude.PathSet.{contains}
use distributed_log_query_en.Prelude.Int.{
  less_of_lt_le, less_of_le_lt, ℤ, pos, less, less_irrefl, less_trans,
}
use distributed_log_query_en.Types.{LogEntry}
use distributed_log_query_en.Index.{
  Option, Index, SegmentMeta, tokenize, widen, add, add_all, remove_segment, in_range,
  path_in_range, resolve,
}
use distributed_log_query_en.Index.Resolve.{posted, named, contains-resolve}
use distributed_log_query_en.Index.Posting.{
  posted-add_path, posted-add_tokens, posted-remove_path_ne,
}

-- The index knows the entry as one of the segment.
pub record Covers (idx : Index) (path : Text) (e : LogEntry) : Type 0 where
  pub meta : SegmentMeta
  pub known : get path idx.segment_meta ≡ some meta
  pub not_before : less e.timestamp meta.min_time ≡ false
  pub not_after : less meta.max_time e.timestamp ≡ false
  pub tokens :
      (t : Text) → contains (tokenize e.message) t ≡ true → posted idx.token_segments t path ≡ true
  pub service : (e.service == []) ≡ false → posted idx.service_segments e.service path ≡ true
  pub namespace : posted idx.namespace_segments e.namespace path ≡ true

-- The entry meets what a request asks of tokens, namespace, service and time.
pub record Meets (e : LogEntry) (tokens : List Text) (namespace service : Text)
    (start_time end_time : ℤ) : Type 0 where
  pub has_tokens : all_pass (contains (tokenize e.message)) tokens ≡ true
  pub has_namespace : (namespace == [] || e.namespace == namespace) ≡ true
  pub has_service : (service == [] || e.service == service) ≡ true
  pub from_start : (less (pos 0) start_time && less e.timestamp start_time) ≡ false
  pub to_end : (less (pos 0) end_time && less end_time e.timestamp) ≡ false

all_pass-posted :
    (idx : Index) (path : Text) (e : LogEntry) (toks : List Text)
    → Covers idx path e
    → all_pass (contains (tokenize e.message)) toks ≡ true
    → all_pass (λ t. posted idx.token_segments t path) toks ≡ true
unfolding all_pass
all_pass-posted idx path e [] c h = refl
all_pass-posted idx path e (t ∷ toks) c h =
    ground (arith, c.tokens t, all_pass-posted idx path e toks c)

-- A segment is never pruned while it holds an entry that the index covers and the request asks for.
pub resolve-Covers :
    (idx : Index) (path : Text) (e : LogEntry) (tokens : List Text) (namespace service : Text)
    (start_time end_time : ℤ)
    → Covers idx path e
    → Meets e tokens namespace service start_time end_time
    → contains (resolve idx tokens namespace service start_time end_time) path ≡ true
unfolding named path_in_range in_range
resolve-Covers idx path e tokens namespace service start_time end_time c m = rw contains-resolve (
    ground (
      arith,
      keys-get path c.meta idx.segment_meta c.known,
      c.known,
      all_pass-posted idx path e tokens c m.has_tokens,
      text_key.eqb_iff e.namespace namespace,
      text_key.eqb_iff e.service service,
      less_of_le_lt e.timestamp c.meta.max_time start_time,
      less_of_lt_le end_time c.meta.min_time e.timestamp,
    ))

widen_bounds :
    (o : Option SegmentMeta) (t : ℤ)
    → (less t (widen o t).min_time ≡ false) × (less (widen o t).max_time t ≡ false)
unfolding widen
widen_bounds none t = (less_irrefl t, less_irrefl t)
widen_bounds (some meta) t = ground (arith, less_irrefl t)

widen_keeps :
    (meta : SegmentMeta) (t u : ℤ)
    → less u meta.min_time ≡ false
    → less meta.max_time u ≡ false
    → (less u (widen (some meta) t).min_time ≡ false)
      × (less (widen (some meta) t).max_time u ≡ false)
unfolding widen
widen_keeps meta t u h k =
    ground (arith, less_trans u t meta.min_time, less_trans meta.max_time t u)

-- An entry that is added is covered.
pub Covers-add_self : (e : LogEntry) (path : Text) (idx : Index) → Covers (add e path idx) path e
unfolding add
Covers-add_self e path idx = record {
  meta = widen (get path idx.segment_meta) e.timestamp;
  known = rw get-put (ground (arith, ==_refl path));
  not_before = (widen_bounds (get path idx.segment_meta) e.timestamp).0;
  not_after = (widen_bounds (get path idx.segment_meta) e.timestamp).1;
  tokens = λ t h.
      ground (
        arith,
        posted-add_tokens idx.token_segments (tokenize e.message) path t path,
        ==_refl path,
      );
  service = λ h. ground (
    arith,
    posted-add_path idx.service_segments e.service path e.service path,
    ==_refl path,
    ==_refl e.service,
  );
  namespace = ground (
    arith,
    posted-add_path idx.namespace_segments e.namespace path e.namespace path,
    ==_refl path,
    ==_refl e.namespace,
  );
}

-- Adding to a segment keeps what was known of it, in bounds that may be wider.
pub Covers-add :
    (e e' : LogEntry) (path path' : Text) (idx : Index)
    → Covers idx path e
    → Covers (add e' path' idx) path e
unfolding add
Covers-add e e' path path' idx c = record {
  meta = if path' == path then widen (some c.meta) e'.timestamp else c.meta;
  known = rw get-put (ground (arith, text_key.eqb_iff path' path, c.known));
  not_before = ground (arith, widen_keeps c.meta e'.timestamp e.timestamp c.not_before c.not_after);
  not_after = ground (arith, widen_keeps c.meta e'.timestamp e.timestamp c.not_before c.not_after);
  tokens = λ t h. ground (
    arith,
    posted-add_tokens idx.token_segments (tokenize e'.message) path' t path,
    c.tokens t h,
  );
  service = λ h.
      ground
        (arith, posted-add_path idx.service_segments e'.service path' e.service path, c.service h);
  namespace = ground (
    arith,
    posted-add_path idx.namespace_segments e'.namespace path' e.namespace path,
    c.namespace,
  );
}

-- Removing another segment keeps what was known.
pub Covers-remove_segment :
    (e : LogEntry) (path path' : Text) (idx : Index)
    → path' ≢ path
    → Covers idx path e
    → Covers (remove_segment path' idx) path e
unfolding remove_segment
Covers-remove_segment e path path' idx ne c = record {
  meta = c.meta;
  known = rw get-delete (ground (arith, text_key.eqb_iff path' path, c.known));
  not_before = c.not_before;
  not_after = c.not_after;
  tokens = λ t h. posted-remove_path_ne idx.token_segments path' t path ne (c.tokens t h);
  service = λ h. posted-remove_path_ne idx.service_segments path' e.service path ne (c.service h);
  namespace = posted-remove_path_ne idx.namespace_segments path' e.namespace path ne c.namespace;
}

pub Covers-add_all_keep :
    (e : LogEntry) (path path' : Text) (es : List LogEntry) (idx : Index)
    → Covers idx path e
    → Covers (add_all es path' idx) path e
unfolding add_all
Covers-add_all_keep e path path' [] idx c = c
Covers-add_all_keep e path path' (e' ∷ es) idx c =
    Covers-add_all_keep e path path' es (add e' path' idx) (Covers-add e e' path path' idx c)

pub Covers-add_all :
    (path : Text) (es : List LogEntry) (idx : Index) → All (Covers (add_all es path idx) path) es
unfolding add_all
Covers-add_all path [] idx = tt
Covers-add_all path (e ∷ es) idx = (
  Covers-add_all_keep e path path es (add e path idx) (Covers-add_self e path idx),
  Covers-add_all path es (add e path idx),
)
