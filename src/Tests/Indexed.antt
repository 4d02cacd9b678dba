-- ===== src/Tests/Indexed.antt =====
-- Runs of the index and the router at concrete inputs.
use distributed_log_query_en.Index.{tokenize, nonempty_parts}
use distributed_log_query_en.Index.Resolve.{contains-resolve, named, posted}
use distributed_log_query_en.Prelude.Dict.{keys}
use distributed_log_query_en.Types.{LogEntry}
use distributed_log_query_en.Prelude.Int.{less, pos}
use distributed_log_query_en.Index.Rebuild.{rebuild_from_segments-Covers}
use distributed_log_query_en.Prelude.Result.{ok, Result}
use distributed_log_query_en.Prelude.PathSet.{contains}
use distributed_log_query_en.Index.Coverage.{
  Meets, resolve-Covers, Covers-add_self, Covers-add, Covers,
}
use distributed_log_query_en.Index.{
  path_in_range, new_index, add_all, resolve, add, rebuild_from_segments, Index,
}
use distributed_log_query_en.Prelude.{
  ◌&&◌, ==_refl, arith, All, all_pass, ◌≡◌, refl, true, List, [], ◌∷◌,
}
use distributed_log_query_en.Prelude.Text.{
  lower_byte, is_alphanumeric, to_lower, text_eqb, split_from, split_non_alphanumeric, Text, text,
  text_key,
}
use distributed_log_query_en.Tests.Toy.{sample}

abbrev path_0 : Text
path_0 = text "d/0.seg"

abbrev path_1 : Text
path_1 = text "d/1.seg"

-- An index of two segments.
indexed : Index
indexed = add (sample (text "b")) path_1 (add (sample (text "a")) path_0 new_index)

covered : Covers indexed path_0 (sample (text "a"))
unfolding indexed
covered =
    Covers-add (sample (text "a")) (sample (text "b")) path_0 path_1
      (add (sample (text "a")) path_0 new_index)
      (Covers-add_self (sample (text "a")) path_0 new_index)

meets : Meets (sample (text "a")) (text "disk" ∷ []) (text "prod") (text "api") (pos 5) (pos 9)
unfolding all_pass contains tokenize split_non_alphanumeric split_from less text_eqb to_lower
    nonempty_parts is_alphanumeric lower_byte
meets = record {
  has_tokens = refl;
  has_namespace = refl;
  has_service = refl;
  from_start = refl;
  to_end = refl;
}

resolve-Covers_example :
    contains (resolve indexed (text "disk" ∷ []) (text "prod") (text "api") (pos 5) (pos 9)) path_0
    ≡ true
resolve-Covers_example =
    resolve-Covers indexed path_0 (sample (text "a")) (text "disk" ∷ []) (text "prod") (text "api")
      (pos 5) (pos 9) covered meets

contains-resolve_example :
    contains (resolve indexed (text "disk" ∷ []) (text "prod") [] (pos 5) (pos 0)) path_1 ≡ (
      (((contains (keys indexed.segment_meta) path_1
            && all_pass (λ t. posted indexed.token_segments t path_1) (text "disk" ∷ []))
          && named indexed.namespace_segments (text "prod") path_1)
        && named indexed.service_segments [] path_1)
      && path_in_range indexed (pos 5) (pos 0) path_1)
contains-resolve_example =
    contains-resolve indexed (text "disk" ∷ []) (text "prod") [] (pos 5) (pos 0) path_1

-- Reads one segment.
abbrev read_one : Text → Result Text (List LogEntry)
read_one path = ok (sample path ∷ [])

abbrev rebuilt : Index
rebuilt = add_all (sample path_0 ∷ []) path_0 indexed

rebuilt-eq : rebuild_from_segments read_one (path_0 ∷ []) indexed ≡ ok rebuilt
unfolding rebuild_from_segments
rebuilt-eq = refl

rebuild_from_segments-Covers_example : All (Covers rebuilt path_0) (sample path_0 ∷ [])
rebuild_from_segments-Covers_example =
    rebuild_from_segments-Covers read_one path_0 (path_0 ∷ []) (sample path_0 ∷ []) indexed rebuilt
      rebuilt-eq (unfold contains in ground (arith, ==_refl path_0)) refl
