-- ===== src/Coordinator/Cache/Key.antt =====
-- The key of a request in the cache, `CacheKey` of internal/coordinator/cache.go. SHA-256 and its
-- hexadecimal form are an argument.
pub mod Laws
use distributed_log_query_en.Prelude.{
  ℕ, zero, suc, ◌+◌, ◌/◌, ◌%◌, List, [], ◌∷◌, ◌++◌, ltb, if◌then◌else◌,
}
use distributed_log_query_en.Prelude.Text.{Text, text}
use distributed_log_query_en.Prelude.Int.{ℤ, pos, negsuc}
use distributed_log_query_en.Types.{QueryRequest}

-- The decimal digits of a number below 10 ^ fuel.
unfoldable pub digits : ℕ → ℕ → Text
digits zero n = []
digits (suc fuel) n =
    let high = digits fuel (n / 10) in
    let low = b'0' + n % 10 in if ltb n 10 then low ∷ [] else high ++ low ∷ []

-- %d of an int64, which has at most 19 digits
unfoldable pub print_int : ℤ → Text
unfolding digits
print_int (pos n) = digits 20 n
print_int (negsuc n) = b'-' ∷ digits 20 (n + 1)

-- fmt.Fprintf(h, "%s|%s|%s|%d|%d|%d|%d", ...)
unfoldable pub key_text : QueryRequest → Text
unfolding print_int
key_text req =
    req.query_string
    ++ b'|'
      ∷ (req.namespace
          ++ b'|'
            ∷ (req.service
                ++ b'|'
                  ∷ (print_int req.start_time
                      ++ b'|'
                        ∷ (print_int req.end_time
                            ++ b'|' ∷ (print_int req.limit ++ b'|' ∷ print_int req.offset)))))

unfoldable pub cache_key : (Text → Text) → QueryRequest → Text
unfolding key_text
cache_key sum req = sum (key_text req)
