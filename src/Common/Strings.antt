-- ===== src/Common/Strings.antt =====
-- JavaScript strings as lists of code units: equality, `toLowerCase` on the ASCII range (the
-- addresses and hashes that are compared without case are hexadecimal), and literals.
use Prim.Native.Char.{code}
use Prim.Native.String.{String}
use Prim.Native.Nat.{ℕ, ◌+◌}
use mathlib.Core.Path.{◌≡◌, refl, ap₂}
use mathlib.Core.Logic.{◌↔◌}
use mathlib.Core.Bool.{Bool, true, false, ◌&&◌, ◌||◌}
use mathlib.Core.List.{List, [], ◌∷◌, map}
use native.Mathlib.Omega.{arith}
use funi.Common.Tests.{leb, ◌==◌, if◌then◌else◌}

abbrev pub Text : Type 0
Text = List ℕ

abbrev pub text : String → Text
text String.[] = []
text (String.◌∷◌ c s) = code c ∷ text s

unfoldable pub text_eq : Text → Text → Bool
text_eq [] [] = true
text_eq [] (d ∷ t) = false
text_eq (c ∷ s) [] = false
text_eq (c ∷ s) (d ∷ t) = (c == d) && text_eq s t

text_eq_to : (s t : Text) → text_eq s t ≡ true → s ≡ t
unfolding text_eq
text_eq_to [] [] h = refl
text_eq_to [] (d ∷ t) h = cc
text_eq_to (c ∷ s) [] h = cc
text_eq_to (c ∷ s) (d ∷ t) h = ground (arith, text_eq_to s t)

pub text_eq_refl : (s : Text) → text_eq s s ≡ true
unfolding text_eq
text_eq_refl [] = refl
text_eq_refl (c ∷ s) = ground (arith, text_eq_refl s)

text_eq_from : (s t : Text) → s ≡ t → text_eq s t ≡ true
text_eq_from s t h = ground (arith, text_eq_refl s)

pub text_eq_iff : (s t : Text) → (text_eq s t ≡ true) ↔ (s ≡ t)
text_eq_iff s t = (text_eq_to s t, text_eq_from s t)

abbrev pub lower_unit : ℕ → ℕ
lower_unit c = if leb b'A' c && leb c b'Z' then c + 32 else c

lower_unit_idem : (c : ℕ) → lower_unit (lower_unit c) ≡ lower_unit c
lower_unit_idem c = ground arith

-- `s.toLowerCase()`, and SQLite's `lower(s)`.
unfoldable pub lower : Text → Text
lower s = map lower_unit s

pub lower_idem : (s : Text) → lower (lower s) ≡ lower s
unfolding lower
lower_idem [] = refl
lower_idem (c ∷ s) = ap₂ ◌∷◌ (lower_unit_idem c) (lower_idem s)

-- Equality without case.
abbrev pub same_text : Text → Text → Bool
same_text a b = text_eq (lower a) (lower b)

-- The code units that `String.prototype.trim` removes.
abbrev pub is_blank : ℕ → Bool
is_blank c =
    (leb 9 c && leb c 13)
    || (c == 32
        || (c == 160
            || (c == 5760
                || ((leb 8192 c && leb c 8202)
                    || (c == 8232
                        || (c == 8233
                            || (c == 8239 || (c == 8287 || (c == 12288 || c == 65279)))))))))

abbrev pub trim_start : Text → Text
trim_start [] = []
trim_start (c ∷ s) = if is_blank c then trim_start s else c ∷ s

abbrev pub is_empty : Text → Bool
is_empty [] = true
is_empty (c ∷ s) = false

abbrev pub trim_end : Text → Text
trim_end [] = []
trim_end (c ∷ s) = let rest = trim_end s in if is_blank c && is_empty rest then [] else c ∷ rest

-- `String(value).trim().toLowerCase()`
unfoldable pub normalized : Text → Text
normalized s = lower (trim_end (trim_start s))
