-- ===== src/Types.antt =====
-- pkg/types/log_entry.go and pkg/types/query.go: the domain types, and what protobuf gives for a
-- log entry.
use native.Mathlib.Nat.{mod-eq_of_lt}
use distributed_log_query_en.Prelude.{
  arith, ◌<◌, ◌%◌, ◌^◌, ◌-◌, ltb, if◌then◌else◌, ℕ, ◌≡◌, Bool, Option, some, List,
}
use distributed_log_query_en.Prelude.Text.{Text}
use distributed_log_query_en.Prelude.Dict.{Dict}
use distributed_log_query_en.Prelude.Int.{ℤ, pos, negsuc}

pub record LogEntry : Type 0 where
  pub id : Text
  pub timestamp : ℤ
  pub received_at : ℤ
  pub namespace : Text
  pub service : Text
  pub level : Text
  pub message : Text
  pub fields : Dict Text Text

-- int32(n)
unfoldable pub to_int32 : ℕ → ℤ
to_int32 n = let r = n % 2 ^ 32 in if ltb r (2 ^ 31) then pos r else negsuc (2 ^ 32 - 1 - r)

-- Numbers below 2^31 do not wrap.
pub to_int32_small : (n : ℕ) → n < 2 ^ 31 → to_int32 n ≡ pos n
unfolding to_int32
to_int32_small n h = ground (arith, mod-eq_of_lt {n = n} {m = 2 ^ 32} (omega arith))

pub record QueryRequest : Type 0 where
  pub query_string : Text
  pub namespace : Text
  pub service : Text
  pub start_time : ℤ
  pub end_time : ℤ
  pub limit : ℤ
  pub offset : ℤ

pub record QueryResult : Type 0 where
  pub entries : List LogEntry
  pub total : ℤ
  pub partial : Bool

abbrev pub Bytes : Type 0
Bytes = List ℕ

-- proto.Marshal and proto.Unmarshal at the generated LogEntry message. Marshalling fails on text
-- that is not UTF-8; what was marshalled is read back.
pub record Codec : Type 0 where
  pub marshal : LogEntry → Option Bytes
  pub unmarshal : Bytes → Option LogEntry
  pub unmarshal-marshal :
      (e : LogEntry) (payload : Bytes) → marshal e ≡ some payload → unmarshal payload ≡ some e
