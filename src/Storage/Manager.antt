-- ===== src/Storage/Manager.antt =====
-- internal/storage/manager.go, and the methods of the manager in read.go: the active segment, the
-- list of segment paths whose last one is active, rotation, and the bloom sidecars.
pub mod Write
pub mod Open
pub mod Names
pub mod Load
pub mod Stored
pub mod Append
pub mod Paths
use distributed_log_query_en.Prelude.{
  ℕ, zero, suc, ◌+◌, ◌-◌, ◌*◌, ◌/◌, ◌%◌, ◌^◌, Bool, true, false, not, ◌&&◌, Option, none, some,
  List, [], ◌∷◌, ◌++◌, length, leb, ltb, last?, init, keep, ◌==◌, if◌then◌else◌, or_else, take,
}
use distributed_log_query_en.Prelude.Text.{Text, text, text_key, to_lower, split_non_alphanumeric}
use distributed_log_query_en.Prelude.Dict.{Dict, get, put, delete}
use distributed_log_query_en.Prelude.Result.{Result, ok, err}
use distributed_log_query_en.Types.{LogEntry}
use distributed_log_query_en.Storage.Disk.{Disk, join_path, base, has_suffix}
use distributed_log_query_en.Storage.Bloom.{bloom_path}
use distributed_log_query_en.Storage.Record.{RecordError}
use distributed_log_query_en.Storage.Segment.{Segment, open_segment}

pub record Manager (Filter : Type 0) : Type 0 where
  pub dir : Text
  pub max_segment_bytes : ℕ
  pub active : Option Segment
  pub next_seq : ℕ
  pub paths : List Text
  pub bloom_enabled : Bool
  pub blooms : Dict Text Filter

pub data ManagerError : Type 0 where
  closed_manager marshal_failed index_out_of_range : ManagerError
  append_failed : RecordError → ManagerError

-- The manager and the disk that it works on.
abbrev pub Store : Type 0 → Type 0
Store Filter = Manager Filter × Disk Filter

-- fmt.Sprintf("%020d.seg", seq)
unfoldable pub decimal : ℕ → ℕ → Text
decimal zero n = []
decimal (suc k) n = decimal k (n / 10) ++ (b'0' + n % 10) ∷ []

unfoldable pub segment_name : ℕ → Text
unfolding decimal
segment_name seq = decimal 20 seq ++ text ".seg"

-- strconv.ParseUint(s, 10, 64)
unfoldable pub parse_digits : ℕ → Text → Option ℕ
parse_digits n [] = some n
parse_digits n (c ∷ s) = elim (leb b'0' c && leb c b'9') [
  | true ↦ parse_digits (n * 10 + (c - b'0')) s
  | false ↦ none
]

unfoldable pub parse_uint : Text → Option ℕ
unfolding parse_digits
parse_uint [] = none
parse_uint (c ∷ s) = elim (parse_digits 0 (c ∷ s)) [
  | none ↦ none
  | some n ↦ if ltb n (2 ^ 64) then some n else none
]

unfoldable pub trim_seg : Text → Text
trim_seg name = if has_suffix name (text ".seg") then take (length name - 4) name else name

unfoldable pub max_seq : ℕ → List Text → ℕ
unfolding parse_uint trim_seg
max_seq m [] = m
max_seq m (p ∷ ps) =
    let n = or_else (parse_uint (trim_seg (base p))) 0 in max_seq (if ltb m n then n else m) ps

unfoldable pub next_seq_from_matches : List Text → ℕ
unfolding max_seq
next_seq_from_matches paths = (max_seq 0 paths + 1) % 2 ^ 64

unfoldable pub drop_empty : List Text → List Text
drop_empty parts = keep (λ p. not (p == [])) parts

unfoldable pub tokenize_entry : LogEntry → List Text
unfolding drop_empty
tokenize_entry e =
    drop_empty (split_non_alphanumeric (to_lower e.message))
    ++ to_lower e.level ∷ to_lower e.service ∷ to_lower e.namespace ∷ []

unfoldable pub tokenize_entries : List LogEntry → List Text
unfolding tokenize_entry
tokenize_entries [] = []
tokenize_entries (e ∷ es) = tokenize_entry e ++ tokenize_entries es

unfoldable pub remap_path : Text → Text → List Text → List Text
remap_path old new [] = []
remap_path old new (p ∷ ps) = (if p == old then new else p) ∷ remap_path old new ps

module _ {Filter : Type 0} where
  unfoldable pub open_new_segment : Store Filter → Store Filter
  open_new_segment (m, d) =
      let name = segment_name m.next_seq in
      let path = join_path m.dir name in
      let (seg, d') = open_segment path d in
      (
        record m {
          active = some seg;
          paths = m.paths ++ path ∷ [];
          next_seq = (m.next_seq + 1) % 2 ^ 64;
        },
        record d' { active_marker = some name },
      )

  unfoldable pub segment_paths : Manager Filter → List Text
  segment_paths m = m.paths

  unfoldable pub close : Manager Filter → Manager Filter
  close m = record m { active = none }

  unfoldable pub list_closed_segments : Manager Filter → List Text
  list_closed_segments m = if leb (length m.paths) 1 then [] else init m.paths

  unfoldable pub active_segment_path : Manager Filter → Text
  active_segment_path m = elim m.active [ none ↦ [] | some _ ↦ or_else (last? m.paths) [] ]

  unfoldable pub active_segment_name : Manager Filter → Text
  active_segment_name m = elim (last? m.paths) [ none ↦ [] | some p ↦ base p ]

  unfoldable pub bloom_for : Manager Filter → Text → Option Filter
  bloom_for m seg_path = get seg_path m.blooms

  unfoldable pub remap_segment : Text → Text → Manager Filter → Manager Filter
  unfolding remap_path
  remap_segment old new m = record m {
    paths = remap_path old new m.paths;
    blooms = elim (get old m.blooms) [
      | none ↦ m.blooms
      | some bf ↦ delete old (put new bf m.blooms)
    ];
  }

  unfoldable pub delete_segment : Text → Manager Filter → Manager Filter
  delete_segment path m = record m {
    paths = keep (λ p. not (p == path)) m.paths;
    blooms = delete path m.blooms;
  }

  -- bf, err := ReadBloom(BloomPath(path)); the filter is kept if the sidecar is there
  unfoldable pub load_bloom : Text → Disk Filter → Dict Text Filter → Dict Text Filter
  load_bloom path d blooms = elim (get (bloom_path path) d.sidecars) [
    | none ↦ blooms
    | some bf ↦ put path bf blooms
  ]

  unfoldable pub load_segment : Text → Store Filter → Result ManagerError (Manager Filter)
  unfolding load_bloom
  load_segment path (m, d) = elim (last? m.paths) [
    | none ↦ err index_out_of_range
    | some active ↦ ok (record m {
      paths = (init m.paths ++ path ∷ []) ++ active ∷ [];
      blooms = if m.bloom_enabled then load_bloom path d m.blooms else m.blooms;
    })
  ]
