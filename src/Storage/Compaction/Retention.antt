-- ===== src/Storage/Compaction/Retention.antt =====
-- What the retention pass of internal/storage/compaction.go deletes.
use mathlib.Core.Path.{subst}
use distributed_log_query_en.Storage.Manager.{list_closed_segments}
use distributed_log_query_en.Prelude.Dict.{get-delete, get}
use distributed_log_query_en.Prelude.Result.{err, Result, ok}
use distributed_log_query_en.Storage.Disk.{remove_sidecar, remove_file, Disk}
use distributed_log_query_en.Storage.Read.{ReadError, skip_missing, read_segments, read_segment}
use mathlib.Core.List.{append-nil}
use distributed_log_query_en.Prelude.{sym, if◌then◌else◌, ◌∙◌, ◌==◌, ap, inl, inr}
use distributed_log_query_en.Types.{Codec, LogEntry}
use distributed_log_query_en.Prelude.Int.{
  less_trans, less_asymm, less_of_lt_le, less_of_le_lt, less_irrefl, pos, less, ℤ,
}
use distributed_log_query_en.Storage.Compaction.{
  drop_segment, run_retention_pass, retain_all, Compacted, retain, is_expired, max_timestamp,
}
use distributed_log_query_en.Prelude.{
  inl, Bool-cases, arith, All, all_pass, ◌≡◌, refl, true, false, List, [], ◌∷◌,
}
use distributed_log_query_en.Prelude.Text.{Text, text_key}

-- The value bounds the one that the maximum started from and every timestamp.
abbrev Bounds : ℤ → ℤ → List LogEntry → Type 0
Bounds m max_ts es = (less m max_ts ≡ false) × All (λ e. less m e.timestamp ≡ false) es

max_timestamp-cons :
    (max_ts : ℤ) (e : LogEntry) (es : List LogEntry)
    → max_timestamp max_ts (e ∷ es)
      ≡ (if less max_ts e.timestamp then max_timestamp e.timestamp es else max_timestamp max_ts es)
unfolding max_timestamp
max_timestamp-cons max_ts e es = refl

max_timestamp-Bounds :
    (max_ts : ℤ) (es : List LogEntry) → Bounds (max_timestamp max_ts es) max_ts es
max_timestamp-Bounds max_ts [] = unfold max_timestamp in (less_irrefl max_ts, tt)
max_timestamp-Bounds max_ts (e ∷ es) = elim (Bool-cases (less max_ts e.timestamp)) [
  | inl up ↦
      let (b, all) = max_timestamp-Bounds e.timestamp es in
      let m = max_timestamp e.timestamp es in
      let step : max_timestamp max_ts (e ∷ es) ≡ m = rw (max_timestamp-cons, up) refl in
      subst (λ n. Bounds n max_ts (e ∷ es)) (sym step)
        (ground (arith, b, less_of_lt_le max_ts e.timestamp m, less_asymm max_ts m), (b, all))
  | inr same ↦
      let (b, all) = max_timestamp-Bounds max_ts es in
      let m = max_timestamp max_ts es in
      let step : max_timestamp max_ts (e ∷ es) ≡ m = rw (max_timestamp-cons, same) refl in
      subst (λ n. Bounds n max_ts (e ∷ es)) (sym step)
        (
          b,
          (
            ground (arith, b, less_of_le_lt max_ts m e.timestamp, less_trans max_ts m e.timestamp),
            all,
          ),
        )
]

all_older :
    (m cutoff : ℤ) (es : List LogEntry)
    → less m cutoff ≡ true
    → All (λ e. less m e.timestamp ≡ false) es
    → all_pass (λ e. less e.timestamp cutoff) es ≡ true
unfolding all_pass
all_older m cutoff [] lt h = refl
all_older m cutoff (e ∷ es) lt (b, h) =
    ground (arith, less_of_le_lt e.timestamp m cutoff b lt, all_older m cutoff es lt h)

is_expired-older :
    (cutoff : ℤ) (es : List LogEntry)
    → is_expired cutoff es ≡ true
    → all_pass (λ e. less e.timestamp cutoff) es ≡ true
unfolding is_expired
is_expired-older cutoff es h =
    all_older (max_timestamp (pos 0) es) cutoff es (ground arith)
      (max_timestamp-Bounds (pos 0) es).1

module _ (codec : Codec) {Filter : Type 0} where
  read_segment-same :
      (d d' : Disk Filter) (path : Text)
      → get path d'.segments ≡ get path d.segments
      → read_segment codec d' path ≡ read_segment codec d path
  unfolding read_segment
  read_segment-same d d' path h = rw (read_segment, h) refl

  read_segments-one :
      (d : Disk Filter) (path : Text) (es : List LogEntry)
      → read_segment codec d path ≡ ok es
      → read_segments codec d (path ∷ []) ≡ ok es
  unfolding read_segments skip_missing
  read_segments-one d path es h = rw (read_segments, h) (ap ok (append-nil es))

  retain-other :
      (cutoff : ℤ) (p path : Text) (r : Result ReadError (List LogEntry)) (st : Compacted Filter)
      → (p == path) ≡ false
      → get path (retain codec cutoff p r st).0.1.segments ≡ get path st.0.1.segments
  unfolding retain drop_segment remove_file remove_sidecar
  retain-other cutoff p path (err e) st ne = refl
  retain-other cutoff p path (ok es) ((m, d), idx) ne = elim (Bool-cases (is_expired cutoff es)) [
    | inl old ↦ rw (retain, old, get-delete, ne) refl
    | inr young ↦ rw (retain, young) refl
  ]

  retain-keeps :
      (cutoff : ℤ) (p path : Text) (es : List LogEntry) (st : Compacted Filter)
      → read_segment codec st.0.1 path ≡ ok es
      → all_pass (λ e. less e.timestamp cutoff) es ≡ false
      → get path (retain codec cutoff p (read_segments codec st.0.1 (p ∷ [])) st).0.1.segments
        ≡ get path st.0.1.segments
  retain-keeps cutoff p path es st h young = elim (Bool-cases (p == path)) [
    | inr ne ↦ retain-other cutoff p path (read_segments codec st.0.1 (p ∷ [])) st ne
    | inl same ↦
        let kept : is_expired cutoff es ≡ false = ground (arith, is_expired-older cutoff es) in
        rw ((text_key.eqb_iff p path).0 same, read_segments-one st.0.1 path es h)
          (unfold retain in rw kept refl)
  ]

  retain_all-keeps :
      (cutoff : ℤ) (paths : List Text) (path : Text) (es : List LogEntry) (st : Compacted Filter)
      → read_segment codec st.0.1 path ≡ ok es
      → all_pass (λ e. less e.timestamp cutoff) es ≡ false
      → get path (retain_all codec cutoff paths st).0.1.segments ≡ get path st.0.1.segments
  unfolding retain_all
  retain_all-keeps cutoff [] path es st h young = refl
  retain_all-keeps cutoff (p ∷ ps) path es st h young =
      let st1 = retain codec cutoff p (read_segments codec st.0.1 (p ∷ [])) st in
      let same = retain-keeps cutoff p path es st h young in
      retain_all-keeps cutoff ps path es st1 (read_segment-same st.0.1 st1.0.1 path same ∙ h) young
      ∙ same

  -- The retention pass never touches the file of a segment that can be read and holds an entry that
  -- is not older than the cutoff.
  pub run_retention_pass-keeps :
      (retention_days cutoff : ℤ) (path : Text) (es : List LogEntry) (st : Compacted Filter)
      → read_segment codec st.0.1 path ≡ ok es
      → all_pass (λ e. less e.timestamp cutoff) es ≡ false
      → get path (run_retention_pass codec retention_days cutoff st).0.1.segments
        ≡ get path st.0.1.segments
  unfolding run_retention_pass
  run_retention_pass-keeps days cutoff path es st h young = elim (Bool-cases (less (pos 0) days)) [
    | inl some_days ↦
        rw (run_retention_pass, some_days)
          (retain_all-keeps cutoff (list_closed_segments st.0.0) path es st h young)
    | inr none_at_all ↦ rw (run_retention_pass, none_at_all) refl
  ]
