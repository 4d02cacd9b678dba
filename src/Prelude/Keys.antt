-- ===== src/Prelude/Keys.antt =====
-- Types whose values the code compares by `==` and uses as map keys.
use mathlib.Core.Path.{◌≡◌, refl}
use mathlib.Core.Logic.{◌↔◌, ◌≢◌}
use mathlib.Core.Bool.{Bool, true, false}
use native.Mathlib.Omega.{arith}
use Prim.Native.Nat.{ℕ}
use distributed_log_query_en.Prelude.Tests.{nat_eqb, nat_eqb_iff}

pub record Key {ℓ} (K : Type ℓ) : Type ℓ where
  pub eqb : K → K → Bool
  pub eqb_iff : (a b : K) → (eqb a b ≡ true) ↔ (a ≡ b)

infix 50 ◌==◌
abbrev pub ◌==◌ {ℓ} : {K : Type ℓ} ⦃k : Key K⦄ → K → K → Bool
◌==◌ ⦃k⦄ = k.eqb

instance abbrev pub nat_key : Key ℕ
nat_key = record { eqb = nat_eqb; eqb_iff = nat_eqb_iff }

module _ {ℓ} {K : Type ℓ} ⦃k : Key K⦄ where
  pub ==_refl : (a : K) → (a == a) ≡ true
  ==_refl a = (k.eqb_iff a a).1 refl

  pub ==_ne : (a b : K) → a ≢ b → (a == b) ≡ false
  ==_ne a b h = ground (arith, k.eqb_iff a b)

  pub ==_comm : (a b : K) → (a == b) ≡ (b == a)
  ==_comm a b = ground (arith, k.eqb_iff a b, k.eqb_iff b a)
