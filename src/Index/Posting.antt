-- ===== src/Index/Posting.antt =====
-- How adding an entry and removing a segment change the sets of internal/index/index.go.
use distributed_log_query_en.Prelude.{
  ◌≡◌, ◌≢◌, refl, true, false, ◌&&◌, ◌||◌, List, [], ◌∷◌, ◌==◌, arith, or_else, ==_refl,
}
use distributed_log_query_en.Prelude.Text.{Text, text_key}
use distributed_log_query_en.Prelude.Dict.{Dict, get, get-put}
use distributed_log_query_en.Prelude.PathSet.{contains, insert, contains-insert, contains-remove}
use distributed_log_query_en.Index.{add_path, add_tokens, remove_path}
use distributed_log_query_en.Index.Resolve.{posted}

pub posted-add_path :
    (m : Dict Text (List Text)) (key path j p : Text)
    → posted (add_path key path m) j p ≡ ((key == j && path == p) || posted m j p)
unfolding posted add_path contains
posted-add_path m key path j p = ground (
  arith,
  get-put key j (insert path (or_else (get key m) [])) m,
  contains-insert path p (or_else (get key m) []),
  text_key.eqb_iff key j,
)

pub posted-add_tokens :
    (m : Dict Text (List Text)) (toks : List Text) (path j p : Text)
    → posted (add_tokens toks path m) j p ≡ ((contains toks j && path == p) || posted m j p)
unfolding add_tokens contains
posted-add_tokens m [] path j p = ground arith
posted-add_tokens m (tok ∷ toks) path j p =
    ground
      (arith, posted-add_tokens (add_path tok path m) toks path j p, posted-add_path m tok path j p)

pub posted-remove_path_self :
    (m : Dict Text (List Text)) (path j : Text) → posted (remove_path path m) j path ≡ false
unfolding posted remove_path get contains
posted-remove_path_self [] path j = refl
posted-remove_path_self ((key, segs) ∷ m) path j =
    ground (arith, posted-remove_path_self m path j, contains-remove path path segs, ==_refl path)

pub posted-remove_path_ne :
    (m : Dict Text (List Text)) (path j p : Text)
    → path ≢ p
    → posted m j p ≡ true
    → posted (remove_path path m) j p ≡ true
unfolding posted remove_path get contains
posted-remove_path_ne [] path j p ne h = h
posted-remove_path_ne ((key, segs) ∷ m) path j p ne h = ground (
  arith,
  posted-remove_path_ne m path j p ne,
  contains-remove path p segs,
  text_key.eqb_iff p path,
)
