-- ===== src/Tests/Queried.antt =====
-- Runs of the query side at concrete inputs.
use distributed_log_query_en.Prelude.Text.{trim_space, trim_left}
use distributed_log_query_en.Query.Server
use distributed_log_query_en.Query.Server.{by_cancel, internal, respond, error_status}
use distributed_log_query_en.Query.Executor.{QueryError}
use distributed_log_query_en.Storage.Disk.{Disk}
use distributed_log_query_en.Query.Executor.Complete.{Sound, execute-finds}
use distributed_log_query_en.Index.Coverage.{Covers-add_self, Covers}
use distributed_log_query_en.Storage.Read.Frames.{blank, framed, read_entries-Holds}
use distributed_log_query_en.Query.Executor.Reads.{Reads}
use distributed_log_query_en.Prelude.Dict.{get}
use distributed_log_query_en.Query.Executor.Results.{execute-IsPage, IsPage}
use distributed_log_query_en.Storage.Manager.{tokenize_entries, tokenize_entry, bloom_for}
use distributed_log_query_en.Query.Executor.{passes, effective_limit, page, execute, Context}
use distributed_log_query_en.Storage.Read.{read_entries, read_segment}
use distributed_log_query_en.Storage.Bloom.{add_tokens-contains, build_bloom}
use distributed_log_query_en.Query.Match.Prune.{
  Lacks, is_indexed_field, bloom_misses_custom_field, HoldsEntry,
}
use distributed_log_query_en.Query.Parser.{
  field_node, out_of_fuel, parse_tokens, finish, parse_or, parse_and, or_loop, and_loop, parse_atom,
  lex, fields_from, pad, cut_colon, peek, consume, leaf, close_paren,
}
use distributed_log_query_en.Query.Parser.Total.{parse_ends}
use distributed_log_query_en.Prelude.PathSet.{contains}
use distributed_log_query_en.Prelude.Result.{err, ok}
use distributed_log_query_en.Prelude.Int.{less, pos}
use distributed_log_query_en.Query.Match.{
  bloom_definite_miss, without_empty, index_tokens, has_token, matches_node, matches,
}
use distributed_log_query_en.Query.Parser.{parse_and, term_node, Node, parse}
use distributed_log_query_en.Index.{add_tokens, new_index, add_all, Index}
use distributed_log_query_en.Types.{Bytes, QueryRequest, LogEntry}
use distributed_log_query_en.Prelude.{
  keep, length, suc, arith, inr, inl, ◌==◌, Bool-cases, All, ==_refl, ◌≢◌, Option, ◌≡◌, refl, true,
  false, List, [], ◌∷◌, some,
}
use distributed_log_query_en.Prelude.Text.{
  Text, is_alphanumeric, split_from, split_non_alphanumeric, lower_byte, to_lower, text_eqb,
  is_space, text, text_key,
}
use distributed_log_query_en.Tests.Toy.{sample, toy_codec, toy_bloom}
use distributed_log_query_en.Tests.Stored.{frame_a, IsFrame-a, path_0, disk_0, manager_0}

abbrev pub term_disk : Option Node
term_disk = some (term_node (text "disk"))

abbrev pub entries_a : List LogEntry
entries_a = sample (text "a") ∷ []

abbrev pub request : QueryRequest
request = record {
  query_string = text "disk";
  namespace = text "prod";
  service = [];
  start_time = pos 0;
  end_time = pos 0;
  limit = pos 0;
  offset = pos 0;
}

indexed : Index
indexed = add_all entries_a path_0 new_index

pub parse_disk : parse (text "disk") ≡ ok term_disk
unfolding parse parse_tokens finish parse_or parse_and or_loop and_loop parse_atom lex fields_from
    pad trim_space trim_left cut_colon peek consume leaf close_paren is_space text_eqb to_lower
parse_disk = refl

parse_ends_example : parse (text "(disk AND level=ERROR") ≢ err out_of_fuel
parse_ends_example = parse_ends (text "(disk AND level=ERROR")

matches_a : matches (sample (text "a")) term_disk ≡ true
unfolding matches matches_node has_token distributed_log_query_en.Query.Match.tokenize without_empty
    contains to_lower lower_byte split_non_alphanumeric split_from is_alphanumeric text_eqb
matches_a = refl

-- A filter that holds every token of the entry.
abbrev filter_a : List Text
filter_a = build_bloom toy_bloom (tokenize_entry (sample (text "a"))) 0

filter_a-HoldsEntry : HoldsEntry toy_bloom filter_a (sample (text "a"))
unfolding build_bloom
filter_a-HoldsEntry tok h =
    add_tokens-contains toy_bloom (tokenize_entry (sample (text "a"))) [] tok h

-- An entry with a field of its own.
abbrev with_host : LogEntry
with_host = record (sample (text "h")) { fields = (text "host", text "web1") ∷ [] }

differs : (s t : Text) → (s == t) ≡ false → s ≢ t
differs s t other same = cc (other, (text_key.eqb_iff s t).1 same)

Lacks-with_host : Lacks toy_bloom (to_lower (text "web1")) with_host
unfolding contains to_lower lower_byte text_eqb distributed_log_query_en.Query.Match.tokenize
    without_empty split_non_alphanumeric split_from is_alphanumeric
Lacks-with_host = record {
  word = refl;
  level = differs _ _ refl;
  service = differs _ _ refl;
  namespace = differs _ _ refl;
}

not_by_chance :
    contains (tokenize_entries (with_host ∷ [])) (to_lower (text "web1")) ≡ false
    → contains
        (build_bloom toy_bloom
          (tokenize_entries (with_host ∷ []))
          (length (tokenize_entries (with_host ∷ []))))
        (to_lower (text "web1"))
      ≡ false
unfolding build_bloom add_tokens tokenize_entries tokenize_entry contains to_lower lower_byte
    text_eqb split_non_alphanumeric split_from is_alphanumeric
    distributed_log_query_en.Storage.Manager.drop_empty keep
not_by_chance absent = refl

bloom_misses_custom_field_example :
    (matches_node with_host (field_node (text "host") (text "web1")) ≡ true)
    × (bloom_definite_miss toy_bloom
          (build_bloom toy_bloom
            (tokenize_entries (with_host ∷ []))
            (length (tokenize_entries (with_host ∷ []))))
          (field_node (text "host") (text "web1"))
        ≡ true)
bloom_misses_custom_field_example =
    bloom_misses_custom_field toy_bloom [] [] with_host (text "host") (text "web1")
      (unfold is_indexed_field to_lower lower_byte text_eqb in refl) (unfold get text_eqb in refl)
      (Lacks-with_host, tt) not_by_chance

got_a : get path_0 disk_0.segments ≡ some frame_a
unfolding get
got_a = ground (arith, ==_refl path_0)

read_stored :
    (d : Disk (List Text)) (path : Text) (stream : Bytes) (es : List LogEntry)
    → get path d.segments ≡ some stream
    → read_entries toy_codec (suc (length stream)) stream ≡ ok es
    → read_segment toy_codec d path ≡ ok es
unfolding read_segment
read_stored d path stream es g h = rw (read_segment, g) h

pub read_a : read_segment toy_codec disk_0 path_0 ≡ ok entries_a
read_a =
    read_stored disk_0 path_0 frame_a entries_a got_a
      (read_entries-Holds toy_codec 6 (framed IsFrame-a refl blank) (omega arith))

reads : (p : Text) → Reads toy_codec sample disk_0 p
unfolding read_segment get
reads p = elim (Bool-cases (path_0 == p)) [
  | inl here ↦ inr (entries_a, rw (← (text_key.eqb_iff path_0 p).0 here) read_a, (refl, tt))
  | inr other ↦ inl (rw (other, read_segment) refl)
]

abbrev pub not_canceled : Context
not_canceled = record { canceled_at_start = false; canceled_at_read = false }

indexed_a :
    All
      (λ e. Covers indexed path_0 e × Sound toy_bloom (bloom_for manager_0 path_0) term_disk e)
      entries_a
unfolding indexed bloom_for get add_all
indexed_a = ((Covers-add_self (sample (text "a")) path_0 new_index, tt), tt)

-- What that run finds, and that it returns a page of it.
executed :
    (found : List LogEntry) × (execute toy_codec toy_bloom indexed
        (manager_0, disk_0)
        not_canceled
        request
      ≡ ok (page (pos 0) (effective_limit (pos 0)) found))
executed =
    let (found, run, all) =
      execute-finds toy_codec toy_bloom sample indexed manager_0 disk_0 not_canceled request
        term_disk path_0 entries_a (unfold less in refl) (unfold less in refl) refl refl parse_disk
        reads read_a (refl, tt) indexed_a in
    (found, run)

execute-IsPage_example :
    (ast : Option Node) × (parse (text "disk") ≡ ok ast)
    × IsPage request ast (page (pos 0) (effective_limit (pos 0)) executed.0)
execute-IsPage_example =
    execute-IsPage toy_codec toy_bloom indexed (manager_0, disk_0) not_canceled request
      (page (pos 0) (effective_limit (pos 0)) executed.0) executed.1

abbrev bad_request : QueryRequest
bad_request = record request { query_string = text "AND" }

refused :
    distributed_log_query_en.Query.Server.query toy_codec toy_bloom indexed
      (manager_0, disk_0)
      not_canceled
      by_cancel
      bad_request
    ≡ err internal
unfolding distributed_log_query_en.Query.Server.query respond error_status
    distributed_log_query_en.Query.Executor.execute distributed_log_query_en.Query.Executor.at_parse
    parse parse_tokens finish parse_or parse_and or_loop and_loop parse_atom lex fields_from pad
    trim_space trim_left cut_colon peek consume leaf close_paren is_space text_eqb to_lower less
refused = refl
