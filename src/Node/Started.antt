-- ===== src/Node/Started.antt =====
-- What a storage node starts with in an empty data directory: an open first segment and nothing to
-- find, cmd/node/main.go.
use distributed_log_query_en.Storage.Read.{ReadError, read_segment}
use distributed_log_query_en.Storage.Segment.{open_segment}
use distributed_log_query_en.Prelude.Result.{Result, ok}
use distributed_log_query_en.Index.{add_all, rebuild_from_segments, new_index}
use distributed_log_query_en.Prelude.PathSet.{contains}
use distributed_log_query_en.Prelude.{
  ==_refl, init, keep, some, ◌^◌, ◌<◌, ◌+◌, All, ◌∷◌, false, ◌++◌, ◌∙◌, ◌≢◌, refl, true, Option, ap,
  All-map, arith, sym, ◌≡◌, Bool, none, ℕ, [], List,
}
use distributed_log_query_en.Storage.Manager.{
  Store, segment_name, open_new_segment, Manager, bloom_for,
}
use distributed_log_query_en.Prelude.Dict.{put, get}
use distributed_log_query_en.Prelude.Text.{text_key, Text}
use distributed_log_query_en.Storage.Disk.{join_path, create_file, Disk}
use distributed_log_query_en.Storage.Bloom.{BloomLib}
use distributed_log_query_en.Types.{LogEntry, Codec}
use distributed_log_query_en.Node.Searchable.{
  read_held, IsSearchable, open_new_segment-IsSearchable,
}
use distributed_log_query_en.Storage.Manager.Append.{IsReady, IsOpen, open_new_segment-IsOpen}
use distributed_log_query_en.Storage.Manager.Open.{load_blooms, new_manager}
use distributed_log_query_en.Node.Start.{with_index, start_node}
use distributed_log_query_en.Storage.Read.Frames.{blank}
use distributed_log_query_en.Storage.Manager.Stored.{no_files}

module _ {Filter : Type 0} where
  abbrev pub empty_disk : Disk Filter
  empty_disk = record { segments = []; sidecars = []; active_marker = none }

module _ (codec : Codec) (lib : BloomLib) where
  open lib use {Filter}

  -- The manager of a new node, before it opens its first segment.
  abbrev blank_manager : Text → ℕ → Bool → Manager Filter
  blank_manager dir max_segment_bytes bloom_enabled = record {
    dir = dir;
    max_segment_bytes = max_segment_bytes;
    active = none;
    next_seq = 1;
    paths = [];
    bloom_enabled = bloom_enabled;
    blooms = [];
  }

  -- What `NewManager` gives in an empty directory.
  abbrev pub first_store : Text → ℕ → Bool → Store Filter
  first_store dir max_segment_bytes bloom_enabled =
      open_new_segment (blank_manager dir max_segment_bytes bloom_enabled, empty_disk)

  new_manager-eq :
      (dir : Text) (max_segment_bytes : ℕ) (bloom_enabled : Bool)
      → new_manager dir max_segment_bytes bloom_enabled empty_disk
        ≡ some (first_store dir max_segment_bytes bloom_enabled)
  unfolding new_manager open_new_segment load_blooms open_segment create_file put get keep init
      distributed_log_query_en.Prelude.last? distributed_log_query_en.Prelude.Order.sort_by
      distributed_log_query_en.Storage.Manager.next_seq_from_matches
  new_manager-eq dir max_segment_bytes true = refl
  new_manager-eq dir max_segment_bytes false = refl

  rebuild-blank :
      (read : Text → Result ReadError (List LogEntry)) (path : Text)
      → read path ≡ ok []
      → rebuild_from_segments read (path ∷ []) new_index ≡ ok new_index
  unfolding rebuild_from_segments add_all
  rebuild-blank read path h = rw (rebuild_from_segments, h) refl

  first_read :
      (dir : Text) (max_segment_bytes : ℕ) (bloom_enabled : Bool)
      → read_segment codec
          (open_new_segment (blank_manager dir max_segment_bytes bloom_enabled, empty_disk)).1
          (join_path dir (segment_name 1))
        ≡ ok []
  unfolding open_new_segment open_segment create_file put get
  first_read dir max_segment_bytes bloom_enabled =
      read_held codec lib
        (open_new_segment (blank_manager dir max_segment_bytes bloom_enabled, empty_disk)).1
        (join_path dir (segment_name 1)) [] []
        (ground (arith, ==_refl (join_path dir (segment_name 1)))) blank

  -- The first segment is empty, so there is nothing to index.
  pub start_node-empty :
      (dir : Text) (max_segment_bytes : ℕ) (bloom_enabled : Bool)
      → start_node codec dir max_segment_bytes bloom_enabled (empty_disk {Filter = Filter})
        ≡ some (new_index, first_store dir max_segment_bytes bloom_enabled)
  unfolding start_node with_index open_new_segment
  start_node-empty dir max_segment_bytes bloom_enabled =
      let st = first_store dir max_segment_bytes bloom_enabled in
      let indexed =
        rebuild-blank (read_segment codec st.1) (join_path dir (segment_name 1))
          (first_read dir max_segment_bytes bloom_enabled) in
      rw (start_node, new_manager-eq dir max_segment_bytes bloom_enabled)
        (ap (with_index codec st) indexed)

  blank-IsReady :
      (dir : Text) (max_segment_bytes : ℕ) (bloom_enabled : Bool)
      → IsReady codec (blank_manager dir max_segment_bytes bloom_enabled, empty_disk) []
  unfolding get
  blank-IsReady dir max_segment_bytes bloom_enabled = record {
    stored = no_files;
    unused = λ n above small. refl;
  }

  pub first_store-IsOpen :
      (dir : Text) (max_segment_bytes : ℕ) (bloom_enabled : Bool)
      → IsOpen codec (first_store dir max_segment_bytes bloom_enabled) []
  first_store-IsOpen dir max_segment_bytes bloom_enabled =
      open_new_segment-IsOpen codec (blank_manager dir max_segment_bytes bloom_enabled, empty_disk)
        [] (blank-IsReady dir max_segment_bytes bloom_enabled) (omega arith)

  pub first_store-IsSearchable :
      (dir : Text) (max_segment_bytes : ℕ) (bloom_enabled : Bool)
      → IsSearchable codec lib new_index (first_store dir max_segment_bytes bloom_enabled)
  unfolding bloom_for get contains
  first_store-IsSearchable dir max_segment_bytes bloom_enabled =
      open_new_segment-IsSearchable codec lib new_index
        (blank_manager dir max_segment_bytes bloom_enabled, empty_disk) []
        (blank-IsReady dir max_segment_bytes bloom_enabled) (omega arith)
        (λ p es listed reads. cc listed) (λ n above small. refl)
