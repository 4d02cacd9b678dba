-- ===== src/Storage/Manager/Names.antt =====
-- Segment file names: the name of a sequence number, written with twenty digits, is its own.
use mathlib.Core.List.{append_cancel_left, append_cancel_right}
use native.Mathlib.Nat.{pow-suc}
use distributed_log_query_en.Prelude.{
  ◌++◌, ℕ, zero, suc, ◌+◌, ◌/◌, ◌%◌, ◌^◌, ◌<◌, ◌≡◌, refl, ap, [], ◌∷◌, arith, length, last?, init,
  last?-snoc, init-snoc, length-append, some,
}
use distributed_log_query_en.Prelude.Text.{Text, text}
use distributed_log_query_en.Storage.Disk.{join_path}
use distributed_log_query_en.Storage.Manager.{decimal, segment_name}

length-decimal : (k n : ℕ) → length (decimal k n) ≡ k
unfolding decimal
length-decimal zero n = refl
length-decimal (suc k) n =
    omega
      (arith, length-append (decimal k (n / 10)) ((b'0' + n % 10) ∷ []), length-decimal k (n / 10))

decimal-injective : (k m n : ℕ) → m < 10 ^ k → n < 10 ^ k → decimal k m ≡ decimal k n → m ≡ n
unfolding decimal
decimal-injective zero m n p q e = omega arith
decimal-injective (suc k) m n p q e =
    let heads : decimal k (m / 10) ≡ decimal k (n / 10) =
      rw (init-snoc, init-snoc) at (ap init e) in
    let digits : some (b'0' + m % 10) ≡ some (b'0' + n % 10) =
      rw (last?-snoc, last?-snoc) at (ap last? e) in
    let tops : m / 10 ≡ n / 10 =
      decimal-injective k (m / 10) (n / 10) (ground (arith, pow-suc 10 k))
        (ground (arith, pow-suc 10 k)) heads in
    ground arith

pub segment_path-injective :
    (dir : Text) (m n : ℕ)
    → m < 10 ^ 20
    → n < 10 ^ 20
    → join_path dir (segment_name m) ≡ join_path dir (segment_name n)
    → m ≡ n
unfolding join_path segment_name
segment_path-injective dir m n p q e =
    let names = append_cancel_left (dir ++ text "/") (segment_name m) (segment_name n) e in
    decimal-injective 20 m n p q
      (append_cancel_right (decimal 20 m) (decimal 20 n) (text ".seg") names)
