-- ===== src/Ingest/Router.antt =====
-- internal/ingest/router.go: the shard of a log entry, by the 32-bit FNV-1a hash.
use Prim.Native.Nat.{bit_xor}
use native.Mathlib.Nat.{mod-lt}
use distributed_log_query_en.Prelude.{
  ℕ, ◌*◌, ◌%◌, ◌^◌, ◌<◌, ◌≡◌, refl, List, [], ◌∷◌, ◌++◌, arith, nat_eqb, if◌then◌else◌,
}
use distributed_log_query_en.Prelude.Text.{Text, text}

-- h.Write(data) of hash/fnv: xor with the byte, then multiply, in 32 bits.
unfoldable pub fnv32a : ℕ → List ℕ → ℕ
fnv32a h [] = h
fnv32a h (c ∷ s) = fnv32a (bit_xor h c * 16777619 % 2 ^ 32) s

unfoldable pub shard_id : Text → Text → ℕ → ℕ
shard_id namespace service total_shards =
    if nat_eqb total_shards 0
    then 0
    else fnv32a 2166136261 (namespace ++ text ":" ++ service) % total_shards

-- Every shard number is below the number of shards, for every namespace and service.
pub shard_id-lt :
    (namespace service : Text) (total : ℕ) → 0 < total → shard_id namespace service total < total
unfolding shard_id
shard_id-lt namespace service total h =
    ground (arith, mod-lt (fnv32a 2166136261 (namespace ++ text ":" ++ service)) {m = total})

-- The hash stays a 32-bit value.
pub fnv32a-lt : (h : ℕ) (s : List ℕ) → h < 2 ^ 32 → fnv32a h s < 2 ^ 32
unfolding fnv32a
fnv32a-lt h [] p = p
fnv32a-lt h (c ∷ s) p = fnv32a-lt (bit_xor h c * 16777619 % 2 ^ 32) s (omega arith)

-- The published test vector of FNV-1a for "a".
fnv32a_a : fnv32a 2166136261 (text "a") ≡ 0xe40c292c
unfolding fnv32a
fnv32a_a = refl
