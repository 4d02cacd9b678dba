-- ===== src/Tests/Stored.antt =====
-- Runs of the storage engine at concrete inputs.
use distributed_log_query_en.Storage.Manager.Load.{load_segment_reopened}
use distributed_log_query_en.Storage.Bloom.{bloom_path}
use distributed_log_query_en.Prelude.Int.{int_eqb}
use distributed_log_query_en.Prelude.Text.{text_eqb}
use distributed_log_query_en.Prelude.{zero, ◌≢◌, ◌++◌, length, suc, last?, init}
use distributed_log_query_en.Storage.Manager.Names.{segment_path-injective}
use distributed_log_query_en.Storage.Read.{out_of_fuel, read_entries, read_segments}
use distributed_log_query_en.Storage.Read.Frames.{read_entries_ends, blank, framed, IsFrame}
use distributed_log_query_en.Storage.Manager.Append.{append_locked-IsOpen, IsOpen}
use distributed_log_query_en.Prelude.Result.{err, ok}
use distributed_log_query_en.Storage.Manager.Write.{append_locked}
use distributed_log_query_en.Storage.Segment.{open_segment, IsSized}
use distributed_log_query_en.Storage.Manager.Stored.{no_files, file, Stored}
use distributed_log_query_en.Prelude.PathSet.{contains}
use distributed_log_query_en.Prelude.Dict.{get}
use distributed_log_query_en.Storage.Disk.{join_path, Disk}
use distributed_log_query_en.Storage.Manager.{
  open_new_segment, load_bloom, list_closed_segments, load_segment, segment_name, Store, Manager,
}
use distributed_log_query_en.Storage.Record.{
  read_record_too_large, too_large, read_record-write_record, read_record, put_uint32, write_record,
}
use distributed_log_query_en.Types.{Bytes}
use distributed_log_query_en.Prelude.{
  none, ==_refl, ◌^◌, arith, ◌<◌, ◌≤◌, ℕ, some, ◌≡◌, refl, true, List, [], ◌∷◌,
}
use distributed_log_query_en.Prelude.Text.{Text, text, text_key}
use distributed_log_query_en.Tests.Toy.{
  no_fields, is_sample, marshal_sample, sample, toy_codec, toy_bloom,
}

abbrev pub frame_a : Bytes
frame_a = 0 ∷ 0 ∷ 0 ∷ 1 ∷ b'a' ∷ []

abbrev pub frame_b : Bytes
frame_b = 0 ∷ 0 ∷ 0 ∷ 1 ∷ b'b' ∷ []

written_a : write_record (text "a") ≡ ok frame_a
unfolding write_record put_uint32
written_a = refl

pub IsFrame-a : IsFrame toy_codec (sample (text "a")) frame_a
unfolding marshal_sample is_sample no_fields int_eqb text_eqb
IsFrame-a = record {
  payload = text "a";
  marshalled = refl;
  small = omega arith;
  written = written_a;
}

pub IsFrame-b : IsFrame toy_codec (sample (text "b")) frame_b
unfolding marshal_sample is_sample no_fields int_eqb text_eqb write_record put_uint32
IsFrame-b = record { payload = text "b"; marshalled = refl; small = omega arith; written = refl }

-- A manager with one segment that holds one entry, whose next append rotates.
abbrev pub path_0 : Text
path_0 = join_path (text "d") (segment_name 0)

abbrev pub manager_0 : Manager (List Text)
manager_0 = record {
  dir = text "d";
  max_segment_bytes = 8;
  active = some (record { path = path_0; size = 5 });
  next_seq = 1;
  paths = path_0 ∷ [];
  bloom_enabled = true;
  blooms = [];
}

abbrev pub disk_0 : Disk (List Text)
disk_0 = record {
  segments = (path_0, frame_a) ∷ [];
  sidecars = [];
  active_marker = some (segment_name 0);
}

unused_0 :
    (n : ℕ)
    → 1 ≤ n
    → n < 10 ^ 20
    → get (join_path (text "d") (segment_name n)) disk_0.segments ≡ none
unfolding get
unused_0 n h lt = ground (
  arith,
  text_key.eqb_iff path_0 (join_path (text "d") (segment_name n)),
  segment_path-injective (text "d") 0 n,
)

pub Stored-0 : Stored toy_codec disk_0.segments manager_0.paths (sample (text "a") ∷ [])
unfolding get
Stored-0 = file (ground (arith, ==_refl path_0)) (framed IsFrame-a refl blank) no_files refl

IsSized-0 : IsSized (record { path = path_0; size = 5 }) disk_0
unfolding get
IsSized-0 = ground (arith, ==_refl path_0)

pub IsOpen-0 : IsOpen toy_codec (manager_0, disk_0) (sample (text "a") ∷ [])
unfolding contains get last? init
IsOpen-0 = record {
  ready = record { stored = Stored-0; unused = unused_0 };
  seg = record { path = path_0; size = 5 };
  active = refl;
  last = refl;
  distinct = refl;
  sized = IsSized-0;
}

append_locked-IsOpen_example :
    (st' : Store (List Text)) × (append_locked toy_codec toy_bloom
        (sample (text "b"))
        (manager_0, disk_0)
      ≡ ok st')
    × IsOpen toy_codec st' (sample (text "a") ∷ sample (text "b") ∷ [])
    × (read_segments toy_codec st'.1 st'.0.paths ≡ ok (sample (text "a") ∷ sample (text "b") ∷ []))
append_locked-IsOpen_example =
    append_locked-IsOpen toy_codec toy_bloom (manager_0, disk_0) (sample (text "a") ∷ [])
      (sample (text "b")) frame_b IsOpen-0 IsFrame-b (omega arith)

read_record-write_record_example : read_record (frame_a ++ frame_b) ≡ ok (text "a", frame_b)
read_record-write_record_example =
    read_record-write_record (text "a") frame_b frame_a (omega arith) written_a

-- Long lists that are never written out.
repeat : ℕ → Bytes
repeat zero = []
repeat (suc n) = 0 ∷ repeat n

length-repeat : (n : ℕ) → length (repeat n) ≡ n
unfolding repeat
length-repeat zero = refl
length-repeat (suc n) = omega (arith, length-repeat n)

read_record_too_large_example :
    (frame : Bytes) × (write_record (repeat 70000000) ≡ ok frame)
    × (read_record (frame ++ frame_a) ≡ err (too_large (length (repeat 70000000))))
read_record_too_large_example =
    read_record_too_large (repeat 70000000) frame_a (omega (arith, length-repeat 70000000))
      (omega (arith, length-repeat 70000000))

read_entries_ends_example : read_entries toy_codec 6 frame_a ≢ err out_of_fuel
read_entries_ends_example = read_entries_ends toy_codec 6 frame_a (omega arith)

abbrev next_path : Text
next_path = join_path (text "d") (segment_name 1)

-- The manager after a segment with the next number is loaded.
abbrev loaded_1 : Manager (List Text)
loaded_1 = record manager_0 { paths = next_path ∷ path_0 ∷ [] }

loaded-eq : load_segment next_path (manager_0, disk_0) ≡ ok loaded_1
unfolding load_segment last? init load_bloom bloom_path get
loaded-eq = refl

load_segment_reopened_example :
    (contains (list_closed_segments (open_new_segment (loaded_1, disk_0)).0) next_path ≡ true)
    × ((open_new_segment (loaded_1, disk_0)).0.active ≡ some (open_segment next_path disk_0).0)
load_segment_reopened_example =
    load_segment_reopened next_path manager_0 loaded_1 disk_0 refl loaded-eq
