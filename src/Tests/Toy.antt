-- ===== src/Tests/Toy.antt =====
-- Small stand-ins for the protobuf codec and the bloom filter library, for the tests.
use distributed_log_query_en.Prelude.Int.{int_key, pos}
use distributed_log_query_en.Storage.Bloom.{BloomLib}
use distributed_log_query_en.Prelude.PathSet.{contains}
use distributed_log_query_en.Types.{Bytes, Codec, LogEntry}
use distributed_log_query_en.Prelude.Dict.{Dict}
use distributed_log_query_en.Prelude.{
  inr, inl, none, ◌&&◌, ==_refl, Bool-cases, if◌then◌else◌, ◌==◌, arith, some, Option, Bool, ◌≡◌,
  refl, true, false, List, [], ◌∷◌,
}
use distributed_log_query_en.Prelude.Text.{Text, text, text_key}

-- An entry of which only the ID varies.
abbrev pub sample : Text → LogEntry
sample id = record {
  id = id;
  timestamp = pos 7;
  received_at = pos 9;
  namespace = text "prod";
  service = text "api";
  level = text "ERROR";
  message = text "disk full";
  fields = [];
}

unfoldable pub no_fields : Dict Text Text → Bool
no_fields [] = true
no_fields (_ ∷ _) = false

no_fields-eq : (d : Dict Text Text) → no_fields d ≡ true → d ≡ []
unfolding no_fields
no_fields-eq [] h = refl
no_fields-eq (_ ∷ _) h = cc h

unfoldable pub is_sample : LogEntry → Bool
unfolding no_fields
is_sample e =
    e.timestamp == pos 7
    && e.received_at == pos 9
    && e.namespace == text "prod"
    && e.service == text "api"
    && e.level == text "ERROR"
    && e.message == text "disk full"
    && no_fields e.fields

is_sample-eq : (e : LogEntry) → is_sample e ≡ true → sample e.id ≡ e
unfolding is_sample
is_sample-eq e h =
    let t : e.timestamp ≡ pos 7 = ground (arith, int_key.eqb_iff e.timestamp (pos 7)) in
    let r : e.received_at ≡ pos 9 = ground (arith, int_key.eqb_iff e.received_at (pos 9)) in
    let n : e.namespace ≡ text "prod" =
      ground (arith, text_key.eqb_iff e.namespace (text "prod")) in
    let s : e.service ≡ text "api" = ground (arith, text_key.eqb_iff e.service (text "api")) in
    let l : e.level ≡ text "ERROR" = ground (arith, text_key.eqb_iff e.level (text "ERROR")) in
    let m : e.message ≡ text "disk full" =
      ground (arith, text_key.eqb_iff e.message (text "disk full")) in
    let f : e.fields ≡ [] = no_fields-eq e.fields (ground arith) in cc (t, r, n, s, l, m, f)

unfoldable pub marshal_sample : LogEntry → Option Bytes
unfolding is_sample
marshal_sample e = if is_sample e then some e.id else none

pub marshal_sample-lem :
    (e : LogEntry) (payload : Bytes)
    → marshal_sample e ≡ some payload
    → some (sample payload) ≡ some e
unfolding marshal_sample
marshal_sample-lem e payload h = elim (Bool-cases (is_sample e)) [
  | inl is ↦ ground (arith, is_sample-eq e is)
  | inr other ↦ ground arith
]

abbrev pub toy_codec : Codec
toy_codec = record {
  marshal = marshal_sample;
  unmarshal = λ payload. some (sample payload);
  unmarshal-marshal = marshal_sample-lem;
}

pub test-add_self : (f : List Text) (s : Text) → contains (s ∷ f) s ≡ true
unfolding contains
test-add_self f s = ground (arith, ==_refl s)

pub test-add_keep : (f : List Text) (s t : Text) → contains f t ≡ true → contains (s ∷ f) t ≡ true
unfolding contains
test-add_keep f s t h = ground arith

abbrev pub toy_bloom : BloomLib
toy_bloom = record {
  Filter = List Text;
  new_with_estimates = λ n. [];
  add_string = λ f s. s ∷ f;
  test_string = λ f s. contains f s;
  test-add_self = test-add_self;
  test-add_keep = test-add_keep;
}
