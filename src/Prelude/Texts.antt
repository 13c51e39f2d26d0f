-- ===== src/Prelude/Texts.antt =====
-- Texts as lists of character codes, with a Boolean equality and ASCII lower case.
use Prim.Native.Nat.{ℕ, ◌+◌}
use Prim.Native.String.{String}
use text.Mathlib.Text.{◌==◌ as str_eq}
use mathlib.Core.Path.{◌≡◌, refl}
use mathlib.Core.Logic.{◌↔◌}
use mathlib.Core.Bool.{Bool, true, false, ◌&&◌}
use mathlib.Core.List.{List, [], ◌∷◌, map}
use native.Mathlib.Omega.{arith}
use axel_sol.Prelude.Tests.{leb, ◌==◌, if◌then◌else◌}

abbrev pub Text : Type 0
Text = List ℕ

unfoldable pub text_eq : Text → Text → Bool
text_eq [] [] = true
text_eq [] (b ∷ bs) = false
text_eq (a ∷ as_) [] = false
text_eq (a ∷ as_) (b ∷ bs) = a == b && text_eq as_ bs

pub text_eq_iff : (a b : Text) → (text_eq a b ≡ true) ↔ (a ≡ b)
unfolding text_eq
text_eq_iff [] [] = ground arith
text_eq_iff [] (b ∷ bs) = ground arith
text_eq_iff (a ∷ as_) [] = ground arith
text_eq_iff (a ∷ as_) (b ∷ bs) = ground (arith, text_eq_iff as_ bs)

pub text_eq_refl : (a : Text) → text_eq a a ≡ true
text_eq_refl a = (text_eq_iff a a).1 refl

abbrev pub lower_char : ℕ → ℕ
lower_char c = if leb b'A' c && leb c b'Z' then c + 32 else c

-- `toLowerCase` of an ASCII text.
unfoldable pub lower : Text → Text
lower t = map lower_char t

-- Whether a text is in a list.
unfoldable pub among : String → List String → Bool
among s [] = false
among s (t ∷ ts) = elim (str_eq t s) [ true ↦ true | false ↦ among s ts ]
