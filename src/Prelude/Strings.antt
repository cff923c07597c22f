-- ===== src/Prelude/Strings.antt =====
-- Texts that the code walks through: Python's `str` methods on lists of code points.
use Prim.Native.Nat.{ℕ, ◌+◌, ◌-◌}
use Prim.Native.Char.{code}
use Prim.Native.String.{String, compare as compare_text}
use text.Mathlib.Text.{is_le}
use mathlib.Core.Path.{◌≡◌}
use mathlib.Core.Logic.{◌↔◌}
use mathlib.Core.Bool.{Bool, true, false, ◌&&◌, ◌||◌}
use mathlib.Core.List.{List, [], ◌∷◌, map, reverse}
use native.Mathlib.Omega.{arith}
use shared_integration.Prelude.Tests.{leb, ltb, ◌==◌, if◌then◌else◌}
use shared_integration.Prelude.Lists.{length}

abbrev pub Text : Type 0
Text = List ℕ

abbrev pub codes : String → Text
codes String.[] = []
codes (String.◌∷◌ c s) = code c ∷ codes s

unfoldable pub text_eq : Text → Text → Bool
text_eq [] [] = true
text_eq [] (y ∷ ys) = false
text_eq (x ∷ xs) [] = false
text_eq (x ∷ xs) (y ∷ ys) = x == y && text_eq xs ys

pub text_eq_iff : (s t : Text) → (text_eq s t ≡ true) ↔ (s ≡ t)
unfolding text_eq
text_eq_iff [] [] = ground arith
text_eq_iff [] (y ∷ ys) = ground arith
text_eq_iff (x ∷ xs) [] = ground arith
text_eq_iff (x ∷ xs) (y ∷ ys) = ground (arith, text_eq_iff xs ys)

-- `s.startswith(p)` and `s.endswith(p)`
unfoldable pub has_prefix : Text → Text → Bool
has_prefix s [] = true
has_prefix [] (p ∷ ps) = false
has_prefix (c ∷ s) (p ∷ ps) = c == p && has_prefix s ps

unfoldable pub has_suffix : Text → Text → Bool
unfolding has_prefix
has_suffix s p = has_prefix (reverse s) (reverse p)

-- The characters that the code compares by `lower` and `upper` are ASCII letters.
abbrev lower_code : ℕ → ℕ
lower_code c = if leb 65 c && leb c 90 then c + 32 else c

abbrev upper_code : ℕ → ℕ
upper_code c = if leb 97 c && leb c 122 then c - 32 else c

abbrev pub lower : Text → Text
lower = map lower_code

abbrev pub upper : Text → Text
upper = map upper_code

-- `s.partition(c)`: what stands before the first `c`, whether there is one, and the rest.
pub record Partition : Type 0 where
  pub before : Text
  pub found : Bool
  pub after : Text

unfoldable pub partition : ℕ → Text → Partition
partition c [] = record { before = []; found = false; after = [] }
partition c (x ∷ xs) =
    let rest = partition c xs in
    if x == c
    then record { before = []; found = true; after = xs }
    else record { before = x ∷ rest.before; found = rest.found; after = rest.after }

unfoldable pub all_codes : (ℕ → Bool) → Text → Bool
all_codes p [] = true
all_codes p (c ∷ s) = p c && all_codes p s

abbrev pub is_ascii : Text → Bool
is_ascii = all_codes λ c. ltb c 128

abbrev pub is_digit : ℕ → Bool
is_digit c = leb 48 c && leb c 57

abbrev pub is_hex : ℕ → Bool
is_hex c = is_digit c || (leb 97 c && leb c 102)

abbrev pub is_alnum : ℕ → Bool
is_alnum c = is_digit c || ((leb 65 c && leb c 90) || (leb 97 c && leb c 122))

-- `[…]{lo,hi}` over a whole text
abbrev pub fullmatch : (ℕ → Bool) → ℕ → ℕ → Text → Bool
fullmatch p lo hi s = leb lo (length s) && (leb (length s) hi && all_codes p s)

unfoldable pub mem_text : Text → List Text → Bool
mem_text t [] = false
mem_text t (x ∷ xs) = text_eq t x || mem_text t xs

-- The order of whole texts.
abbrev pub str_le : String → String → Bool
str_le a b = is_le (compare_text a b)
