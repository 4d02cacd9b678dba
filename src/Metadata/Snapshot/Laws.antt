-- ===== src/Metadata/Snapshot/Laws.antt =====
-- What a snapshot keeps, internal/metadata/fsm.go.
use distributed_log_query_en.Metadata.Keyed.Log.{log-KeyedBy}
use distributed_log_query_en.Prelude.Text.{text_key}
use mathlib.Core.List.{append_assoc, append-nil}
use distributed_log_query_en.Types.{Bytes}
use distributed_log_query_en.Metadata.Keyed.{KeyedBy, Distinct, Each}
use distributed_log_query_en.Prelude.PathSet.{contains}
use distributed_log_query_en.Prelude.Dict.{keys, put, Dict}
use distributed_log_query_en.Metadata.Fsm.{new_shards, new_fsm, apply, Command, apply_all}
use distributed_log_query_en.Metadata.State.{ClusterState, NodeRecord}
use distributed_log_query_en.Prelude.{
  inr, inl, nat_key, Option-cases, some, ◌==◌, arith, refl, none, ◌∙◌, sym, false, ◌++◌, [], ap,
  ◌≡◌, ℕ, Option, Key, List,
}
use distributed_log_query_en.Metadata.Snapshot.{
  ◌∷◌, copy_list, copy_node, copy_into, clone, persist, snapshot, restore, StateJson, write, close,
  SnapshotError,
}

copy_list-eq : (ss : List ℕ) → copy_list ss ≡ ss
unfolding copy_list
copy_list-eq [] = refl
copy_list-eq (s ∷ ss) = ap (λ t. s ∷ t) (copy_list-eq ss)

copy_node-eq : (n : NodeRecord) → copy_node n ≡ n
unfolding copy_node
copy_node-eq n = ap (λ ss. record n { shards = ss }) (copy_list-eq n.shards)

module _ {ℓ κ} {K : Type ℓ} {V : Type κ} ⦃k : Key K⦄ where
  -- The keys of the map are not among those of the copy yet.
  abbrev Fresh : Dict K V → Dict K V → Type 0
  Fresh to m = Each (λ j v. contains (keys to) j ≡ false) m

  put-fresh :
      (key : K) (v : V) (m : Dict K V)
      → contains (keys m) key ≡ false
      → put key v m ≡ m ++ (key, v) ∷ []
  unfolding put contains
  put-fresh key v [] h = refl
  put-fresh key v ((j, w) ∷ m) h =
      ground (arith, k.eqb_iff j key, k.eqb_iff key j, put-fresh key v m)

  contains-keys_snoc :
      (j i : K) (v : V) (m : Dict K V)
      → contains (keys m) i ≡ false
      → (j == i) ≡ false
      → contains (keys (m ++ (j, v) ∷ [])) i ≡ false
  unfolding contains
  contains-keys_snoc j i v [] h e = ground (arith, k.eqb_iff i j, k.eqb_iff j i)
  contains-keys_snoc j i v ((a, w) ∷ m) h e = ground (arith, contains-keys_snoc j i v m)

  Fresh-snoc :
      (j : K) (v : V) (to m : Dict K V)
      → contains (keys m) j ≡ false
      → Fresh to m
      → Fresh (to ++ (j, v) ∷ []) m
  unfolding contains
  Fresh-snoc j v to [] other h = tt
  Fresh-snoc j v to ((i, w) ∷ m) other (absent, h) = (
    contains-keys_snoc j i v to absent (ground (arith, k.eqb_iff i j, k.eqb_iff j i)),
    Fresh-snoc j v to m (ground (arith, k.eqb_iff i j, k.eqb_iff j i)) h,
  )

  copy_into-append :
      (f : V → V) (m to : Dict K V)
      → ((v : V) → f v ≡ v)
      → Distinct m
      → Fresh to m
      → copy_into f m to ≡ to ++ m
  unfolding copy_into
  copy_into-append f [] to same once fresh = sym (append-nil to)
  copy_into-append f ((j, v) ∷ m) to same (absent, once) (new, fresh) =
      ap (copy_into f m) (put-fresh j (f v) to new ∙ ap (λ w. to ++ (j, w) ∷ []) (same v))
      ∙ copy_into-append f m (to ++ (j, v) ∷ []) same once (Fresh-snoc j v to m absent fresh)
      ∙ append_assoc to ((j, v) ∷ []) m

  Fresh-nil : (m : Dict K V) → Fresh [] m
  unfolding contains
  Fresh-nil [] = tt
  Fresh-nil ((j, v) ∷ m) = (refl, Fresh-nil m)

clone-eq : (ks : List ℕ) (st : ClusterState) → KeyedBy ks st → clone st ≡ st
unfolding clone
clone-eq ks st h =
    ap (λ n. record { nodes = n; shards = copy_into (λ sr. sr) st.shards [] })
      (copy_into-append copy_node st.nodes [] copy_node-eq h.once (Fresh-nil st.nodes))
    ∙ ap (λ s. record { nodes = st.nodes; shards = s })
        (copy_into-append (λ sr. sr) st.shards [] (λ sr. refl) h.shards_once (Fresh-nil st.shards))

apply_all-append :
    (cs ds : List Command) (st : ClusterState)
    → apply_all (cs ++ ds) st ≡ apply_all ds (apply_all cs st)
unfolding apply_all
apply_all-append [] ds st = refl
apply_all-append (c ∷ cs) ds st = apply_all-append cs ds (apply c st).0

persist-marshals :
    (json : StateJson) (write_error close_error : Option SnapshotError) (st : ClusterState)
    (bytes : Bytes)
    → persist json write_error close_error st ≡ (write bytes ∷ close ∷ [], none)
    → json.marshal st ≡ some bytes
unfolding persist
persist-marshals json write_error close_error st bytes h = elim (Option-cases (json.marshal st)) [
  | inl e ↦ cc (rw (persist, e) at h)
  | inr (d, e) ↦ elim (Option-cases write_error) [
    | inl w ↦ e ∙ ground (arith, rw (persist, e, w) at h)
    | inr (x, w) ↦ cc (rw (persist, e, w) at h)
  ]
]

-- A coordinator that restores a snapshot which another one took and persisted without an error after
-- the commands `cs`, and then applies the commands `ds` that follow them, has the state of the whole
-- log, whatever its state was before.
pub restore-apply_all :
    (json : StateJson) (write_error close_error : Option SnapshotError) (total_shards : ℕ)
    (cs ds : List Command) (bytes : Bytes) (before : ClusterState)
    → persist json write_error close_error (snapshot (apply_all cs (new_fsm total_shards)))
      ≡ (write bytes ∷ close ∷ [], none)
    → (restore json bytes before ≡ (apply_all cs (new_fsm total_shards), none))
      × (apply_all ds (restore json bytes before).0 ≡ apply_all (cs ++ ds) (new_fsm total_shards))
unfolding snapshot restore
restore-apply_all json write_error close_error total_shards cs ds bytes before h =
    let st = apply_all cs (new_fsm total_shards) in
    let copied = clone-eq (keys (new_shards total_shards)) st (log-KeyedBy total_shards cs) in
    let wrote = persist-marshals json write_error close_error (clone st) bytes h in
    let restored : restore json bytes before ≡ (st, none) =
      rw (restore, json.unmarshal-marshal (clone st) bytes wrote) (ap (λ s. (s, none)) copied) in
    (
      restored,
      ap (λ r. apply_all ds r.0) restored ∙ sym (apply_all-append cs ds (new_fsm total_shards)),
    )
