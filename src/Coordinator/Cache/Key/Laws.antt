-- ===== src/Coordinator/Cache/Key/Laws.antt =====
-- When two requests have the same cache key, internal/coordinator/cache.go.
use distributed_log_query_en.Types.{QueryRequest}
use distributed_log_query_en.Prelude.Text.{Text}
use distributed_log_query_en.Prelude.Int.{negsuc, pos, ℤ}
use distributed_log_query_en.Prelude.{
  zero, ◌%◌, All-append, ◌/◌, inr, refl, inl, ltb, ◌-◌, ◌∙◌, sym, Bool-cases, ◌+◌, All-map, ap,
  arith, suc, ◌^◌, [], ◌*◌, ◌≡◌, ◌≢◌, All, ◌≤◌, ◌<◌, ◌++◌, ℕ,
}
use distributed_log_query_en.Coordinator.Cache.Key.{◌∷◌, digits, print_int, key_text, cache_key}
use native.Mathlib.Nat.{pow-suc}
use mathlib.Core.List.{append_assoc, tail-eq_of_cons-eq, head-eq_of_cons-eq}
use mathlib.Core.Path.{subst}

-- The number that a string of digits stands for, from the one before it.
value : ℕ → Text → ℕ
value n [] = n
value n (c ∷ s) = value (n * 10 + (c - b'0')) s

value-snoc : (n : ℕ) (s : Text) (c : ℕ) → value n (s ++ c ∷ []) ≡ value n s * 10 + (c - b'0')
unfolding value
value-snoc n [] c = refl
value-snoc n (d ∷ s) c = value-snoc (n * 10 + (d - b'0')) s c

value-digits : (fuel n : ℕ) → n < 10 ^ fuel → value 0 (digits fuel n) ≡ n
unfolding value digits
value-digits zero n small = omega arith
value-digits (suc fuel) n small = elim (Bool-cases (ltb n 10)) [
  | inl one ↦ rw (one) (ground arith)
  | inr more ↦
      let top = value-digits fuel (n / 10) (ground (arith, pow-suc 10 fuel)) in
      rw (more, value-snoc, top) (omega arith)
]

-- A byte that is none of the digits, nor a minus sign.
abbrev Printed : ℕ → Type 0
Printed c = b'-' ≤ c × c ≤ b'9'

digits-are : (fuel n : ℕ) → All (λ c. b'0' ≤ c × c ≤ b'9') (digits fuel n)
unfolding digits
digits-are zero n = tt
digits-are (suc fuel) n = elim (Bool-cases (ltb n 10)) [
  | inl one ↦ rw one ((omega arith, omega arith), tt)
  | inr more ↦ rw more (
      All-append _ (digits fuel (n / 10)) ((b'0' + n % 10) ∷ []) (digits-are fuel (n / 10))
        ((omega arith, omega arith), tt))
]

-- What an int64 can hold.
abbrev pub IsInt64 : ℤ → Type 0
IsInt64 (pos n) = n < 2 ^ 63
IsInt64 (negsuc n) = n < 2 ^ 63

digits-no_minus : (fuel n : ℕ) (s : Text) → digits fuel n ≢ b'-' ∷ s
digits-no_minus fuel n s h =
    let (low, high) = (subst (λ t. All (λ c. b'0' ≤ c × c ≤ b'9') t) h (digits-are fuel n)).0 in
    absurd (omega arith)

print_int-injective : (a b : ℤ) → IsInt64 a → IsInt64 b → print_int a ≡ print_int b → a ≡ b
unfolding print_int
print_int-injective (pos m) (pos n) p q h =
    ap pos
      (sym (value-digits 20 m (omega arith)) ∙ ap (value 0) h ∙ value-digits 20 n (omega arith))
print_int-injective (pos m) (negsuc n) p q h = absurd (digits-no_minus 20 m (digits 20 (n + 1)) h)
print_int-injective (negsuc m) (pos n) p q h =
    absurd (digits-no_minus 20 n (digits 20 (m + 1)) (sym h))
print_int-injective (negsuc m) (negsuc n) p q h =
    let same : m + 1 ≡ n + 1 =
      sym (value-digits 20 (m + 1) (omega arith))
      ∙ ap (value 0) (tail-eq_of_cons-eq h)
      ∙ value-digits 20 (n + 1) (omega arith) in
    ap negsuc (omega arith)

-- The string has no vertical bar.
abbrev pub NoBar : Text → Type 0
NoBar s = All (λ c. c ≢ b'|') s

bar-splits :
    (s t u v : Text) → NoBar s → NoBar t → s ++ b'|' ∷ u ≡ t ++ b'|' ∷ v → (s ≡ t) × (u ≡ v)
bar-splits [] [] u v p q h = (refl, tail-eq_of_cons-eq h)
bar-splits [] (c ∷ t) u v p (q, _) h = absurd (q (sym (head-eq_of_cons-eq h)))
bar-splits (c ∷ s) [] u v (p, _) q h = absurd (p (head-eq_of_cons-eq h))
bar-splits (c ∷ s) (d ∷ t) u v (_, p) (_, q) h =
    let (same, rest) = bar-splits s t u v p q (tail-eq_of_cons-eq h) in
    let first = head-eq_of_cons-eq h in (cc (first, same), rest)

NoBar-print_int : (z : ℤ) → NoBar (print_int z)
unfolding print_int
NoBar-print_int (pos n) =
    All-map _ (λ c. c ≢ b'|') (digits 20 n) (λ c h e. omega arith) (digits-are 20 n)
NoBar-print_int (negsuc n) = (
  λ e. omega arith,
  All-map _ (λ c. c ≢ b'|') (digits 20 (n + 1)) (λ c h e. omega arith) (digits-are 20 (n + 1)),
)

-- The strings of the request have no vertical bar, and its numbers fit.
pub record IsPlain (req : QueryRequest) : Type 0 where
  pub query : NoBar req.query_string
  pub namespace : NoBar req.namespace
  pub service : NoBar req.service
  pub starts : IsInt64 req.start_time
  pub ends : IsInt64 req.end_time
  pub limits : IsInt64 req.limit
  pub offsets : IsInt64 req.offset

int-splits :
    (a b : ℤ) (u v : Text)
    → IsInt64 a
    → IsInt64 b
    → print_int a ++ b'|' ∷ u ≡ print_int b ++ b'|' ∷ v
    → (a ≡ b) × (u ≡ v)
int-splits a b u v p q h =
    let (same, rest) =
      bar-splits (print_int a) (print_int b) u v (NoBar-print_int a) (NoBar-print_int b) h in
    (print_int-injective a b p q same, rest)

same_request :
    (a b : QueryRequest)
    → a.query_string ≡ b.query_string
    → a.namespace ≡ b.namespace
    → a.service ≡ b.service
    → a.start_time ≡ b.start_time
    → a.end_time ≡ b.end_time
    → a.limit ≡ b.limit
    → a.offset ≡ b.offset
    → a ≡ b
same_request a b query namespace service start end limit offset = cc

-- Requests of which no string has a vertical bar and that the hash does not confuse are told apart
-- by the cache key: two of them with one key ask for the same.
pub cache_key-injective :
    (sum : Text → Text) (a b : QueryRequest)
    → IsPlain a
    → IsPlain b
    → (sum (key_text a) ≡ sum (key_text b) → key_text a ≡ key_text b)
    → cache_key sum a ≡ cache_key sum b
    → a ≡ b
unfolding cache_key key_text
cache_key-injective sum a b p q hashed h =
    let (query, h1) = bar-splits a.query_string b.query_string _ _ p.query q.query (hashed h) in
    let (namespace, h2) = bar-splits a.namespace b.namespace _ _ p.namespace q.namespace h1 in
    let (service, h3) = bar-splits a.service b.service _ _ p.service q.service h2 in
    let (start, h4) = int-splits a.start_time b.start_time _ _ p.starts q.starts h3 in
    let (end, h5) = int-splits a.end_time b.end_time _ _ p.ends q.ends h4 in
    let (limit, h6) = int-splits a.limit b.limit _ _ p.limits q.limits h5 in
    let offset = print_int-injective a.offset b.offset p.offsets q.offsets h6 in
    same_request a b query namespace service start end limit offset

-- The request for another namespace and service.
abbrev pub asks : QueryRequest → Text → Text → QueryRequest
asks req namespace service = record req { namespace = namespace; service = service }

-- A vertical bar may belong to the namespace or to the service: whatever the hash, the two requests
-- have one key.
pub cache_key-shifted :
    (sum : Text → Text) (req : QueryRequest) (namespace between service : Text)
    → cache_key sum (asks req (namespace ++ b'|' ∷ between) service)
      ≡ cache_key sum (asks req namespace (between ++ b'|' ∷ service))
unfolding cache_key key_text
cache_key-shifted sum req namespace between service =
    let numbers : Text =
      print_int req.start_time
      ++ b'|'
        ∷ (print_int req.end_time ++ b'|' ∷ (print_int req.limit ++ b'|' ∷ print_int req.offset)) in
    ap (λ t. sum (req.query_string ++ b'|' ∷ t))
      (append_assoc namespace (b'|' ∷ between) (b'|' ∷ (service ++ b'|' ∷ numbers))
        ∙ ap (λ t. namespace ++ b'|' ∷ t)
            (sym (append_assoc between (b'|' ∷ service) (b'|' ∷ numbers))))
