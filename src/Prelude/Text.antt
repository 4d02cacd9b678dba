-- ===== src/Prelude/Text.antt =====
-- Go strings as lists of bytes. The text is taken to be ASCII: `strings.ToLower`,
-- `strings.EqualFold` and the white space of `strings.Fields` are those of the standard library on
-- ASCII text.
use Prim.Native.Char.{code}
use Prim.Native.String.{String}
use Prim.Native.Nat.{ℕ, ◌+◌}
use mathlib.Core.Path.{◌≡◌, refl}
use mathlib.Core.Logic.{◌↔◌}
use mathlib.Core.Bool.{Bool, true, false, ◌&&◌, ◌||◌}
use mathlib.Core.List.{reverse, List, [], ◌∷◌, ◌++◌}
use native.Mathlib.Omega.{arith}
use distributed_log_query_en.Prelude.Tests.{ltb, leb, nat_eqb, if◌then◌else◌}
use distributed_log_query_en.Prelude.Keys.{Key}

abbrev pub Text : Type 0
Text = List ℕ

-- A literal of the source.
abbrev pub text : String → Text
text String.[] = []
text (String.◌∷◌ c s) = code c ∷ text s

unfoldable pub text_eqb : Text → Text → Bool
text_eqb [] [] = true
text_eqb [] (_ ∷ _) = false
text_eqb (_ ∷ _) [] = false
text_eqb (a ∷ s) (b ∷ t) = nat_eqb a b && text_eqb s t

pub text_eqb_iff : (s t : Text) → (text_eqb s t ≡ true) ↔ (s ≡ t)
unfolding text_eqb
text_eqb_iff [] [] = ground arith
text_eqb_iff [] (_ ∷ _) = ground arith
text_eqb_iff (_ ∷ _) [] = ground arith
text_eqb_iff (a ∷ s) (b ∷ t) = ground (arith, text_eqb_iff s t)

instance abbrev pub text_key : Key Text
text_key = record { eqb = text_eqb; eqb_iff = text_eqb_iff }

-- s < t, by bytes
unfoldable pub text_less : Text → Text → Bool
text_less [] [] = false
text_less [] (_ ∷ _) = true
text_less (_ ∷ _) [] = false
text_less (a ∷ s) (b ∷ t) = ltb a b || (nat_eqb a b && text_less s t)

pub text_less_irrefl : (s : Text) → text_less s s ≡ false
unfolding text_less
text_less_irrefl [] = refl
text_less_irrefl (a ∷ s) = ground (arith, text_less_irrefl s)

pub text_less_trans :
    (s t u : Text) → text_less s t ≡ true → text_less t u ≡ true → text_less s u ≡ true
unfolding text_less
text_less_trans [] (b ∷ t) (c ∷ u) h k = refl
text_less_trans (a ∷ s) (b ∷ t) (c ∷ u) h k = ground (arith, text_less_trans s t u)
text_less_trans [] [] u h k = ground arith
text_less_trans (a ∷ s) [] u h k = ground arith
text_less_trans s (b ∷ t) [] h k = ground arith

pub text_less_total : (s t : Text) → text_less s t ≡ false → text_less t s ≡ false → s ≡ t
unfolding text_less
text_less_total [] [] h k = refl
text_less_total [] (_ ∷ _) h k = ground arith
text_less_total (_ ∷ _) [] h k = ground arith
text_less_total (a ∷ s) (b ∷ t) h k = ground (arith, text_less_total s t)

unfoldable pub lower_byte : ℕ → ℕ
lower_byte c = if leb b'A' c && leb c b'Z' then c + 32 else c

-- strings.ToLower
unfoldable pub to_lower : Text → Text
unfolding lower_byte
to_lower [] = []
to_lower (c ∷ s) = lower_byte c ∷ to_lower s

-- strings.EqualFold
unfoldable pub equal_fold : Text → Text → Bool
unfolding to_lower text_eqb
equal_fold s t = text_eqb (to_lower s) (to_lower t)

unfoldable pub is_space : ℕ → Bool
is_space c = nat_eqb c 32 || (leb 9 c && leb c 13)

-- [a-z0-9]
unfoldable pub is_alphanumeric : ℕ → Bool
is_alphanumeric c = (leb b'a' c && leb c b'z') || (leb b'0' c && leb c b'9')

-- nonAlphanumeric.Split(s, -1): `in_run` says that the last byte read was a separator.
unfoldable pub split_from : Bool → Text → Text → List Text
unfolding is_alphanumeric
split_from in_run cur [] = cur ∷ []
split_from in_run cur (c ∷ s) = elim (is_alphanumeric c) [
  | true ↦ split_from false (cur ++ c ∷ []) s
  | false ↦ if in_run then split_from true cur s else cur ∷ split_from true [] s
]

unfoldable pub split_non_alphanumeric : Text → List Text
unfolding split_from
split_non_alphanumeric s = split_from false [] s

pub lower_byte-lower_byte : (c : ℕ) → lower_byte (lower_byte c) ≡ lower_byte c
unfolding lower_byte
lower_byte-lower_byte c = ground arith

pub to_lower-to_lower : (s : Text) → to_lower (to_lower s) ≡ to_lower s
unfolding to_lower
to_lower-to_lower [] = refl
to_lower-to_lower (c ∷ s) = ground (arith, lower_byte-lower_byte c, to_lower-to_lower s)

unfoldable pub trim_left : Text → Text
unfolding is_space
trim_left [] = []
trim_left (c ∷ s) = if is_space c then trim_left s else c ∷ s

-- strings.TrimSpace
unfoldable pub trim_space : Text → Text
unfolding trim_left
trim_space s = reverse (trim_left (reverse (trim_left s)))
