-- ===== src/Node/Appended.antt =====
-- An entry that internal/storage/manager.go appends and internal/index/index.go takes in leaves the
-- node searchable.
use distributed_log_query_en.Ingest.Orchestrator.Laws.{
  IsServing-replicate, write_local-eq, replicate-store, append_and_add-IsServing,
  handle_ingest-owned, Owns, IsServing,
}
use distributed_log_query_en.Ingest.Orchestrator.{
  replicate, handle_ingest, received, Arrival, Peers, Orchestrator, append_and_add,
}
use distributed_log_query_en.Index.Coverage.{Covers-add_self, Covers-add, Covers}
use distributed_log_query_en.Storage.Read.{read_segment}
use distributed_log_query_en.Storage.Manager.Paths.{
  append_with_path-eq, append_active-paths, write_sidecar-paths,
}
use mathlib.Core.Path.{subst}
use distributed_log_query_en.Storage.Disk.{join_path, append_file}
use distributed_log_query_en.Prelude.Result.{ok-injective, ok}
use distributed_log_query_en.Storage.Read.Frames.{Holds-append, Holds, IsFrame}
use distributed_log_query_en.Node.Searchable.{
  open_new_segment-IsSearchable, write_sidecar-bloom, read_held, read_segment-get,
  write_sidecar-known, BloomHolds, write_sidecar-segments, IsSearchable,
}
use distributed_log_query_en.Storage.Manager.Append.{
  append_locked-IsOpen, rotate-IsOpen, write_sidecar-IsReady, IsOpen,
}
use distributed_log_query_en.Storage.Manager.Stored.{no_files, Stored-on_disk, file, Stored}
use distributed_log_query_en.Storage.Segment.{append_file-other, append_eq, Segment}
use distributed_log_query_en.Prelude.Text.{text_key, Text}
use distributed_log_query_en.Storage.Manager.{segment_name, bloom_for, open_new_segment, Store}
use distributed_log_query_en.Prelude.Dict.{get-put, get, Dict}
use distributed_log_query_en.Index.{add, Index}
use distributed_log_query_en.Storage.Manager.Write.{
  append_locked, append_payload, write_sidecar, appended, append_active, rotate,
}
use distributed_log_query_en.Prelude.PathSet.{contains-last?, contains}
use distributed_log_query_en.Storage.Bloom.{BloomLib}
use distributed_log_query_en.Types.{LogEntry, Bytes, Codec}
use distributed_log_query_en.Prelude.{
  ◌≢◌, ltb, last?, none, All-append, ◌≤◌, ℕ, ==_refl, ap, All-map, ◌++◌, or_else, All, inr, ◌∙◌,
  inl, refl, sym, ◌==◌, Bool-cases, length, ◌^◌, arith, ◌<◌, ◌+◌, some, true, ◌≡◌, List, [], ◌∷◌,
}

module _ (codec : Codec) (lib : BloomLib) where
  open codec use {marshal}
  open lib use {Filter}

  -- The file of a listed path.
  Stored-file :
      {files : Dict Text Bytes} {paths : List Text} {all : List LogEntry} (p : Text)
      → Stored codec files paths all
      → contains paths p ≡ true
      → (stream : Bytes) × (es : List LogEntry) × (get p files ≡ some stream)
        × Holds codec stream es
  unfolding contains
  Stored-file p no_files c = absurd (ground arith)
  Stored-file {files = files} p (file {path = path} {stream = stream} {es = es} g h s q) c =
      elim (Bool-cases (path == p)) [
        | inl here ↦ (
          stream,
          es,
          subst (λ x. get x files ≡ some stream) ((text_key.eqb_iff path p).0 here) g,
          h,
        )
        | inr ne ↦ Stored-file p s (ground arith)
      ]

  rotate-IsSearchable :
      (idx : Index) (st st' : Store Filter) (all : List LogEntry)
      → IsOpen codec st all
      → IsSearchable codec lib idx st
      → st.0.next_seq + 1 < 2 ^ 64
      → rotate codec lib st ≡ ok st'
      → IsSearchable codec lib idx st'
  unfolding rotate
  rotate-IsSearchable idx (m, d) st' all o h room e =
      let closing = o.seg.path in
      let st1 = write_sidecar codec lib closing (m, d) in
      let (ready, same) = write_sidecar-IsReady codec lib closing (m, d) all o.ready in
      let opened : open_new_segment st1 ≡ st' = ok-injective _ _ (rw (rotate, o.last) at e) in
      let (listing, number, dir) = write_sidecar-paths codec lib closing (m, d) in
      let segs = write_sidecar-segments codec lib closing (m, d) in
      let known : (p : Text) (es : List LogEntry)
          → contains st1.0.paths p ≡ true
          → read_segment codec st1.1 p ≡ ok es
          → All (λ e. Covers idx p e × BloomHolds lib (bloom_for st1.0 p) e) es =
        λ p es listed reads.
          write_sidecar-known codec lib closing idx (m, d) h p es
            (ap (λ ps. contains ps p) (sym listing) ∙ listed)
            (read_segment-get codec lib d st1.1 p (ap (get p) (sym segs)) ∙ reads) in
      let unused : (n : ℕ)
          → st1.0.next_seq ≤ n
          → n < 10 ^ 20
          → bloom_for st1.0 (join_path st1.0.dir (segment_name n)) ≡ none =
        λ n above small.
          let above' : m.next_seq ≤ n = omega (arith, number) in
          let next = join_path m.dir (segment_name n) in
          ap (λ dir. bloom_for st1.0 (join_path dir (segment_name n))) dir
          ∙ elim (write_sidecar-bloom codec lib closing next (m, d)) [
            | inl keeps ↦ keeps ∙ h.unused n above' small
            | inr (entries, here, read, built) ↦ absurd (
                cc (
                  Stored-on_disk codec next o.ready.stored (o.ready.unused n above' small),
                  contains-last? m.paths closing o.last,
                  (text_key.eqb_iff closing next).0 here,
                ))
          ] in
      subst (IsSearchable codec lib idx) opened (
        open_new_segment-IsSearchable codec lib idx st1 all ready (omega (arith, same)) known
          unused)

  -- Where the active segment is written to.
  append_active-eq :
      (st : Store Filter) (seg : Segment) (e : LogEntry) (frame : Bytes)
      → st.0.active ≡ some seg
      → (f : IsFrame codec e frame)
      → append_active codec lib f.payload st
        ≡ ok (
          record st.0 { active = some (record seg { size = seg.size + (4 + length f.payload) }) },
          append_file seg.path frame st.1,
        )
  unfolding append_active appended
  append_active-eq (m, d) seg e frame a f =
      rw (append_active, a, append_eq seg f.payload frame d f.written, appended) refl

  -- What is read of the active segment afterwards.
  active-known :
      (idx : Index) (st : Store Filter) (all : List LogEntry) (e : LogEntry) (frame : Bytes)
      → (o : IsOpen codec st all) → IsSearchable codec lib idx st
      → IsFrame codec e frame
      → (es : List LogEntry)
      → read_segment codec (append_file o.seg.path frame st.1) o.seg.path ≡ ok es
      → All
          (λ x.
            Covers (add e o.seg.path idx) o.seg.path x
            × BloomHolds lib (bloom_for st.0 o.seg.path) x)
          es
  unfolding append_file
  active-known idx (m, d) all e frame o h f es reads =
      let path = o.seg.path in
      let listed = contains-last? m.paths path o.last in
      let (stream, old, g, held) = Stored-file path o.ready.stored listed in
      let g' : get path (append_file path frame d).segments ≡ some (stream ++ frame) = ground (
        arith,
        get-put path path (or_else (get path d.segments) [] ++ frame) d.segments,
        ==_refl path,
        g,
      ) in
      let same : old ++ e ∷ [] ≡ es = ok-injective _ _ (
        sym (
          read_held codec lib (append_file path frame d) path (stream ++ frame) (old ++ e ∷ []) g'
            (Holds-append codec held f))
        ∙ reads) in
      let none_yet = h.plain o.seg o.active in
      let plain : (x : LogEntry) → BloomHolds lib (bloom_for m path) x =
        λ x. subst (λ b. BloomHolds lib b x) (sym none_yet) tt in
      subst (All (λ x. Covers (add e path idx) path x × BloomHolds lib (bloom_for m path) x)) same (
        All-append _ old (e ∷ [])
          (All-map _ _ old (λ x (c, b). (Covers-add x e path path idx c, b))
            (h.known path old listed (read_held codec lib d path stream old g held)))
          ((Covers-add_self e path idx, plain e), tt))

  append_active-IsSearchable :
      (idx : Index) (st st' : Store Filter) (all : List LogEntry) (e : LogEntry) (frame : Bytes)
      → (o : IsOpen codec st all) → IsSearchable codec lib idx st
      → (f : IsFrame codec e frame) → append_active codec lib f.payload st ≡ ok st'
      → IsSearchable codec lib (add e o.seg.path idx) st'
  unfolding bloom_for
  append_active-IsSearchable idx (m, d) st' all e frame o h f wrote =
      let seg = o.seg in
      let st1 : Store Filter = (
        record m { active = some (record seg { size = seg.size + (4 + length f.payload) }) },
        append_file seg.path frame d,
      ) in
      let same : st1 ≡ st' =
        ok-injective _ _ (sym (append_active-eq (m, d) seg e frame o.active f) ∙ wrote) in
      subst (IsSearchable codec lib (add e seg.path idx)) same (record {
        known = λ p es listed reads. elim (Bool-cases (seg.path == p)) [
          | inl here ↦
              subst
                (λ q.
                  (es : List LogEntry)
                  → read_segment codec (append_file seg.path frame d) q ≡ ok es
                  → All (λ x. Covers (add e seg.path idx) q x × BloomHolds lib (bloom_for m q) x)
                      es)
                ((text_key.eqb_iff seg.path p).0 here) (active-known idx (m, d) all e frame o h f)
                es reads
          | inr ne ↦
              All-map _ _ es (λ x (c, b). (Covers-add x e p seg.path idx c, b))
                (h.known p es listed (
                  sym (
                    read_segment-get codec lib (append_file seg.path frame d) d p
                      (append_file-other seg.path p frame d ne))
                  ∙ reads))
        ];
        plain = λ seg' a. ap (λ b. bloom_for m (or_else b seg).path) (sym a) ∙ h.plain seg o.active;
        unused = h.unused;
      })

  last_segment :
      (idx : Index) (st st' : Store Filter) (all : List LogEntry) (e : LogEntry) (frame : Bytes)
      (path : Text)
      → IsOpen codec st all
      → IsSearchable codec lib idx st
      → (f : IsFrame codec e frame) → append_active codec lib f.payload st ≡ ok st'
      → last? st'.0.paths ≡ some path
      → IsSearchable codec lib (add e path idx) st'
  last_segment idx st st' all e frame path o h f wrote final =
      let listing = (append_active-paths codec lib f.payload st st' wrote).0 in
      let same : o.seg.path ≡ path =
        ap (λ l. or_else l o.seg.path) (sym o.last ∙ ap last? (sym listing) ∙ final) in
      subst (λ p. IsSearchable codec lib (add e p idx) st') same
        (append_active-IsSearchable idx st st' all e frame o h f wrote)

  -- The append as a whole: the entry goes to the last path of the list afterwards.
  append_payload-IsSearchable :
      (idx : Index) (st st' : Store Filter) (all : List LogEntry) (seg : Segment) (e : LogEntry)
      (frame : Bytes) (path : Text)
      → IsOpen codec st all
      → IsSearchable codec lib idx st
      → (f : IsFrame codec e frame) → st.0.next_seq + 1 < 2 ^ 64
      → append_payload codec lib seg f.payload st ≡ ok st'
      → last? st'.0.paths ≡ some path
      → IsSearchable codec lib (add e path idx) st'
  unfolding append_payload
  append_payload-IsSearchable idx st st' all seg e frame path o h f room wrote final =
      elim (Bool-cases (ltb st.0.max_segment_bytes (seg.size + (4 + length f.payload)))) [
        | inl full ↦
            let (st1, rotated, o1) = rotate-IsOpen codec lib st all o room in
            let h1 = rotate-IsSearchable idx st st1 all o h room rotated in
            last_segment idx st1 st' all e frame path o1 h1 f
              (rw (append_payload, full, rotated) at wrote) final
        | inr fits ↦
            last_segment idx st st' all e frame path o h f (rw (append_payload, fits) at wrote)
              final
      ]

module _ (codec : Codec) (lib : BloomLib) where
  open codec use {marshal}
  open lib use {Filter}

  -- An append and its index entry leave a searchable node searchable.
  pub append_and_add-IsSearchable :
      (o o' : Orchestrator Filter) (all : List LogEntry) (e : LogEntry) (frame : Bytes)
      → IsServing codec o all
      → IsSearchable codec lib o.idx o.store
      → IsFrame codec e frame
      → o.store.0.next_seq + 1 < 2 ^ 64
      → append_and_add codec lib e o ≡ (true, o')
      → IsSearchable codec lib o'.idx o'.store
  unfolding append_and_add append_locked
  append_and_add-IsSearchable o o' all e frame s h f room ran =
      let (st, wrote, opened, reads) =
        append_locked-IsOpen codec lib o.store all e frame s.stored f room in
      let path = opened.seg.path in
      let added = append_with_path-eq codec lib e o.store st path wrote opened.last in
      let same : record o { store = st; idx = add e path o.idx } ≡ o' =
        ap (λ q. q.1) (rw (append_and_add, added) at ran) in
      subst (λ n. IsSearchable codec lib n.idx n.store) same
        (append_payload-IsSearchable codec lib o.idx o.store st all s.stored.seg e frame path
          s.stored h f room (rw (append_locked, s.stored.active, f.marshalled) at wrote)
          opened.last)

  -- An entry with a service and a message that reaches a node which owns its shard is acknowledged
  -- under the ID that it is stored with. The node goes on serving, with the entry behind the others in
  -- its segments, and searchable: the index knows every stored entry as one of its segment, and a bloom
  -- filter holds the entries of its segment. The entry, with the time of its arrival, has to marshal to
  -- at most 64 MiB, and sequence numbers have to be left; the write may rotate.
  pub handle_ingest-IsSearchable :
      (peers : Peers) (a : Arrival) (pb : LogEntry) (o : Orchestrator Filter) (all : List LogEntry)
      (frame : Bytes)
      → IsServing codec o all
      → IsSearchable codec lib o.idx o.store
      → pb.service ≢ []
      → pb.message ≢ []
      → Owns o pb
      → IsFrame codec (received a pb) frame
      → o.store.0.next_seq + 1 < 2 ^ 64
      → (o' : Orchestrator Filter) × (handle_ingest codec lib peers a (record { entry = some pb }) o
          ≡ (ok (record { id = (received a pb).id; ok = true }), o'))
        × IsServing codec o' (all ++ received a pb ∷ [])
        × IsSearchable codec lib o'.idx o'.store
  handle_ingest-IsSearchable peers a pb o all frame s h service message owns f room =
      let (replica, routed) = handle_ingest-owned codec lib peers a pb o service message owns in
      let e = received a pb in
      let (o1, wrote, serving, used) = append_and_add-IsServing codec lib o all e frame s f room in
      let (store, index) = replicate-store replica e o1 in
      (
        replicate replica e o1,
        routed ∙ write_local-eq codec lib a pb replica o o1 wrote,
        IsServing-replicate codec replica e o1 (all ++ e ∷ []) serving,
        subst (λ i. IsSearchable codec lib i (replicate replica e o1).store) (sym index)
            (subst (IsSearchable codec lib o1.idx) (sym store)
              (append_and_add-IsSearchable o o1 all e frame s h f room wrote)),
      )
