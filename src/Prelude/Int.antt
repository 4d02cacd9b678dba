-- ===== src/Prelude/Int.antt =====
-- Go's int64 values, which the code only compares; `negsuc n` is -(n + 1).
use native.Mathlib.Nat.{mod-eq_of_lt}
use distributed_log_query_en.Prelude.{◌^◌, ◌<◌, ◌%◌, ◌+◌, suc, ◌-◌, leb, if◌then◌else◌}
use Prim.Native.Nat.{ℕ}
use mathlib.Core.Path.{◌≡◌}
use distributed_log_query_en.Prelude.Tests.{Bool-cases}
use mathlib.Core.Logic.{inl, inr, ◌↔◌}
use mathlib.Core.Bool.{Bool, true, false}
use native.Mathlib.Omega.{arith}
use distributed_log_query_en.Prelude.Tests.{ltb, nat_eqb}
use distributed_log_query_en.Prelude.Keys.{Key}

pub data ℤ : Type 0 where
  pos : ℕ → ℤ
  negsuc : ℕ → ℤ

-- a < b
unfoldable pub less : ℤ → ℤ → Bool
less (pos m) (pos n) = ltb m n
less (pos m) (negsuc n) = false
less (negsuc m) (pos n) = true
less (negsuc m) (negsuc n) = ltb n m

-- a - b, without the wrap of int64
unfoldable pub sub : ℤ → ℤ → ℤ
sub (pos a) (pos b) = if leb b a then pos (a - b) else negsuc (b - suc a)
sub (pos a) (negsuc b) = pos (a + suc b)
sub (negsuc a) (pos b) = negsuc (a + b)
sub (negsuc a) (negsuc b) = if leb a b then pos (b - a) else negsuc (a - suc b)

-- The int64 that a number wraps to.
unfoldable pub wrap_int64 : ℤ → ℤ
wrap_int64 (pos n) = let r = n % 2 ^ 64 in if ltb r (2 ^ 63) then pos r else negsuc (2 ^ 64 - 1 - r)
wrap_int64 (negsuc n) =
    let r = n % 2 ^ 64 in if ltb r (2 ^ 63) then negsuc r else pos (2 ^ 64 - 1 - r)

-- a - b of int64
unfoldable pub sub_int64 : ℤ → ℤ → ℤ
unfolding sub wrap_int64
sub_int64 a b = wrap_int64 (sub a b)

-- Between times after 1970 it does not wrap, and compares to a duration as the numbers do.
pub less-sub_int64 :
    (t s d : ℕ) → t < 2 ^ 63 → s < 2 ^ 63 → less (pos d) (sub_int64 (pos t) (pos s)) ≡ ltb d (t - s)
unfolding sub_int64 sub wrap_int64 less
less-sub_int64 t s d small past = elim (Bool-cases (leb s t)) [
  | inl after ↦
      let whole : (t - s) % 2 ^ 64 ≡ t - s = mod-eq_of_lt {n = t - s} {m = 2 ^ 64} (omega arith) in
      ground (arith, whole)
  | inr before ↦
      let gap = s - suc t in
      let whole : gap % 2 ^ 64 ≡ gap = mod-eq_of_lt {n = gap} {m = 2 ^ 64} (omega arith) in
      ground (arith, whole)
]

unfoldable pub int_eqb : ℤ → ℤ → Bool
int_eqb (pos m) (pos n) = nat_eqb m n
int_eqb (pos m) (negsuc n) = false
int_eqb (negsuc m) (pos n) = false
int_eqb (negsuc m) (negsuc n) = nat_eqb m n

pub int_eqb_iff : (a b : ℤ) → (int_eqb a b ≡ true) ↔ (a ≡ b)
unfolding int_eqb
int_eqb_iff (pos m) (pos n) = ground arith
int_eqb_iff (pos m) (negsuc n) = ground arith
int_eqb_iff (negsuc m) (pos n) = ground arith
int_eqb_iff (negsuc m) (negsuc n) = ground arith

instance abbrev pub int_key : Key ℤ
int_key = record { eqb = int_eqb; eqb_iff = int_eqb_iff }

pub less_irrefl : (a : ℤ) → less a a ≡ false
unfolding less
less_irrefl (pos m) = ground arith
less_irrefl (negsuc m) = ground arith

pub less_asymm : (a b : ℤ) → less a b ≡ true → less b a ≡ false
unfolding less
less_asymm (pos m) (pos n) h = ground arith
less_asymm (pos m) (negsuc n) h = ground arith
less_asymm (negsuc m) (pos n) h = ground arith
less_asymm (negsuc m) (negsuc n) h = ground arith

pub less_trans : (a b c : ℤ) → less a b ≡ true → less b c ≡ true → less a c ≡ true
unfolding less
less_trans (pos a) (pos b) (pos c) h k = ground arith
less_trans (negsuc a) (pos b) (pos c) h k = ground arith
less_trans (negsuc a) (negsuc b) (pos c) h k = ground arith
less_trans (negsuc a) (negsuc b) (negsuc c) h k = ground arith
less_trans a b c h k = ground arith

pub less_total : (a b : ℤ) → less a b ≡ false → less b a ≡ false → a ≡ b
unfolding less
less_total (pos m) (pos n) h k = ground arith
less_total (pos m) (negsuc n) h k = ground arith
less_total (negsuc m) (pos n) h k = ground arith
less_total (negsuc m) (negsuc n) h k = ground arith

-- a ≤ b < c
pub less_of_le_lt : (a b c : ℤ) → less b a ≡ false → less b c ≡ true → less a c ≡ true
less_of_le_lt a b c h k = elim (Bool-cases (less a b)) [
  | inl lt ↦ less_trans a b c lt k
  | inr ge ↦ rw (less_total a b ge h) k
]

-- a < b ≤ c
pub less_of_lt_le : (a b c : ℤ) → less a b ≡ true → less c b ≡ false → less a c ≡ true
less_of_lt_le a b c h k = elim (Bool-cases (less b c)) [
  | inl lt ↦ less_trans a b c h lt
  | inr ge ↦ rw (← less_total b c ge k) h
]
