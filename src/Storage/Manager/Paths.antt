-- ===== src/Storage/Manager/Paths.antt =====
-- The path list of internal/storage/manager.go across an append, and the path that
-- `AppendWithPath` returns.
use native.Mathlib.Nat.{mod-eq_of_lt}
use distributed_log_query_en.Storage.Segment.{Segment, append}
use mathlib.Core.Path.{subst}
use distributed_log_query_en.Storage.Read.{read_segment}
use distributed_log_query_en.Storage.Disk.{join_path}
use distributed_log_query_en.Prelude.Result.{>>=-eq-ok, ok-injective, Result-cases, ok}
use distributed_log_query_en.Prelude.PathSet.{contains-append, contains}
use distributed_log_query_en.Storage.Manager.Write.{
  appended, append_payload, append_with_path, append_locked, append_active, rotate, write_sidecar,
}
use distributed_log_query_en.Storage.Bloom.{BloomLib}
use distributed_log_query_en.Prelude.Text.{text_key, Text}
use distributed_log_query_en.Types.{LogEntry, Bytes, Codec}
use distributed_log_query_en.Storage.Manager.{segment_name, Store, open_new_segment}
use distributed_log_query_en.Prelude.{
  ◌≤◌, ◌^◌, ◌<◌, if◌then◌else◌, length, ◌+◌, ltb, Bool-cases, sym, nat_key, ◌∙◌, ap, inr, some, inl,
  last?, Option-cases, arith, true, ◌≡◌, [], ◌∷◌,
}

module _ {Filter : Type 0} where
  open_new_segment-paths :
      (p : Text) (st : Store Filter)
      → contains st.0.paths p ≡ true
      → contains (open_new_segment st).0.paths p ≡ true
  unfolding open_new_segment
  open_new_segment-paths p (m, d) h =
      ground (arith, contains-append m.paths (join_path m.dir (segment_name m.next_seq) ∷ []) p)

module _ (codec : Codec) (lib : BloomLib) where
  open codec use {marshal}
  open lib use {Filter}

  pub write_sidecar-paths :
      (closing : Text) (st : Store Filter)
      → ((write_sidecar codec lib closing st).0.paths ≡ st.0.paths)
        × ((write_sidecar codec lib closing st).0.next_seq ≡ st.0.next_seq)
        × ((write_sidecar codec lib closing st).0.dir ≡ st.0.dir)
  unfolding write_sidecar
  write_sidecar-paths closing (m, d) = ground (arith, Result-cases (read_segment codec d closing))

  rotate-paths :
      (p : Text) (st st' : Store Filter)
      → rotate codec lib st ≡ ok st'
      → contains st.0.paths p ≡ true
      → contains st'.0.paths p ≡ true
  unfolding rotate
  rotate-paths p (m, d) st' h k = elim (Option-cases (last? m.paths)) [
    | inl e ↦ cc (rw (rotate, e) at h)
    | inr (closing, e) ↦
        let opened : open_new_segment (write_sidecar codec lib closing (m, d)) ≡ st' =
          ok-injective _ _ (rw (rotate, e) at h) in
        subst (λ st. contains st.0.paths p ≡ true) opened
          (open_new_segment-paths p (write_sidecar codec lib closing (m, d))
            (ap (λ ps. contains ps p) (write_sidecar-paths closing (m, d)).0 ∙ k))
  ]

  pub append_active-paths :
      (payload : Bytes) (st st' : Store Filter)
      → append_active codec lib payload st ≡ ok st'
      → (st'.0.paths ≡ st.0.paths) × (st'.0.next_seq ≡ st.0.next_seq)
  unfolding append_active
  append_active-paths payload (m, d) st' h = elim (Option-cases m.active) [
    | inl e ↦ cc (rw (append_active, e) at h)
    | inr (seg, e) ↦ elim (Result-cases (append seg payload d)) [
      | inr (r, e') ↦ cc (rw (append_active, e, appended, e') at h)
      | inl ((seg', d'), e') ↦
          let written : (record m { active = some seg' }, d') ≡ st' =
            ok-injective _ _ (rw (append_active, e, appended, e') at h) in
          (ap (λ st. st.0.paths) (sym written), ap (λ st. st.0.next_seq) (sym written))
    ]
  ]

  append_payload-paths :
      (p : Text) (seg : Segment) (payload : Bytes) (st st' : Store Filter)
      → append_payload codec lib seg payload st ≡ ok st'
      → contains st.0.paths p ≡ true
      → contains st'.0.paths p ≡ true
  unfolding append_payload
  append_payload-paths p seg payload st st' h k =
      let (st1, e1, e2) =
        >>=-eq-ok
          (if ltb st.0.max_segment_bytes (seg.size + (4 + length payload))
            then rotate codec lib st
            else ok st)
          (append_active codec lib payload) st' h in
      ap (λ ps. contains ps p) (append_active-paths payload st1 st' e2).0
      ∙ elim (Bool-cases (ltb st.0.max_segment_bytes (seg.size + (4 + length payload)))) [
        | inl full ↦ rotate-paths p st st1 (rw full at e1) k
        | inr fits ↦ subst (λ s. contains s.0.paths p ≡ true) (ok-injective _ _ (rw fits at e1)) k
      ]

  -- An append removes no path from the list.
  pub append_locked-paths :
      (p : Text) (e : LogEntry) (st st' : Store Filter)
      → append_locked codec lib e st ≡ ok st'
      → contains st.0.paths p ≡ true
      → contains st'.0.paths p ≡ true
  unfolding append_locked
  append_locked-paths p e (m, d) st' h k = elim (Option-cases m.active) [
    | inl e' ↦ cc (rw (append_locked, e') at h)
    | inr (seg, e') ↦ elim (Option-cases (marshal e)) [
      | inl e'' ↦ cc (rw (append_locked, e', e'') at h)
      | inr (payload, e'') ↦
          append_payload-paths p seg payload (m, d) st' (rw (append_locked, e', e'') at h) k
    ]
  ]

  -- The path that is returned is that of the segment written to.
  pub append_with_path-eq :
      (e : LogEntry) (st st' : Store Filter) (path : Text)
      → append_locked codec lib e st ≡ ok st'
      → last? st'.0.paths ≡ some path
      → append_with_path codec lib e st ≡ ok (path, st')
  unfolding append_with_path
  append_with_path-eq e st st' path h l = ground arith

  rotate-next_seq :
      (st st' : Store Filter)
      → rotate codec lib st ≡ ok st'
      → st.0.next_seq + 1 < 2 ^ 64
      → st'.0.next_seq ≡ st.0.next_seq + 1
  unfolding rotate open_new_segment
  rotate-next_seq (m, d) st' h room = elim (Option-cases (last? m.paths)) [
    | inl e ↦ cc (rw (rotate, e) at h)
    | inr (closing, e) ↦
        let opened : open_new_segment (write_sidecar codec lib closing (m, d)) ≡ st' =
          ok-injective _ _ (rw (rotate, e) at h) in
        ap (λ st. st.0.next_seq) (sym opened)
        ∙ mod-eq_of_lt {m = 2 ^ 64} (omega (arith, (write_sidecar-paths closing (m, d)).1))
        ∙ omega (arith, (write_sidecar-paths closing (m, d)).1)
  ]

  append_payload-next_seq :
      (seg : Segment) (payload : Bytes) (st st' : Store Filter)
      → append_payload codec lib seg payload st ≡ ok st'
      → st.0.next_seq + 1 < 2 ^ 64
      → st'.0.next_seq ≤ st.0.next_seq + 1
  unfolding append_payload
  append_payload-next_seq seg payload st st' h room =
      let (st1, e1, e2) =
        >>=-eq-ok
          (if ltb st.0.max_segment_bytes (seg.size + (4 + length payload))
            then rotate codec lib st
            else ok st)
          (append_active codec lib payload) st' h in
      let same = (append_active-paths payload st1 st' e2).1 in
      elim (Bool-cases (ltb st.0.max_segment_bytes (seg.size + (4 + length payload)))) [
        | inl full ↦ omega (arith, same, rotate-next_seq st st1 (rw full at e1) room)
        | inr fits ↦ omega (arith, same, ap (λ s. s.0.next_seq) (ok-injective _ _ (rw fits at e1)))
      ]

  -- An append uses one sequence number at most.
  pub append_locked-next_seq :
      (e : LogEntry) (st st' : Store Filter)
      → append_locked codec lib e st ≡ ok st'
      → st.0.next_seq + 1 < 2 ^ 64
      → st'.0.next_seq ≤ st.0.next_seq + 1
  unfolding append_locked
  append_locked-next_seq e (m, d) st' h room = elim (Option-cases m.active) [
    | inl e' ↦ cc (rw (append_locked, e') at h)
    | inr (seg, e') ↦ elim (Option-cases (marshal e)) [
      | inl e'' ↦ cc (rw (append_locked, e', e'') at h)
      | inr (payload, e'') ↦
          append_payload-next_seq seg payload (m, d) st' (rw (append_locked, e', e'') at h) room
    ]
  ]
