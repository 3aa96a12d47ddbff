-- ===== src/Prelude/Text.antt =====
-- Python's `str` as the native text, with its characters as code points.
use Prim.Native.Nat.{ℕ}
use Prim.Native.Char.{code}
use Prim.Native.String.{String}
use text.Mathlib.Text.{◌==◌}
use mathlib.Core.Bool.{Bool, ◌&&◌, ◌||◌}
use mathlib.Core.List.{List, [], ◌∷◌}
use orchd_ai.Prelude.Tests.{leb, if◌then◌else◌}
use orchd_ai.Prelude.Tests
use orchd_ai.Prelude.Lists.{any, all}
pub use text.Mathlib.TextEquality.{eq_iff}
pub use text.Mathlib.TextPositions.{eq_refl}

abbrev pub str_eq : String → String → Bool
str_eq s t = s == t

abbrev pub codes : String → List ℕ
codes String.[] = []
codes (String.◌∷◌ c s) = code c ∷ codes s

abbrev between : ℕ → ℕ → ℕ → Bool
between lo hi c = leb lo c && leb c hi

-- The class [A-Za-z0-9] of the regular expressions.
unfoldable pub is_alnum : ℕ → Bool
is_alnum c = between b'A' b'Z' c || between b'a' b'z' c || between b'0' b'9' c

-- The class [A-Za-z0-9_-].
unfoldable pub is_word : ℕ → Bool
unfolding is_alnum
is_word c = is_alnum c || Tests.◌==◌ c b'_' || Tests.◌==◌ c b'-'

-- `str.isspace` on one character: the whitespace that `str.strip` removes.
unfoldable pub is_space : ℕ → Bool
is_space c =
    between 9 13 c
    || between 28 32 c
    || between 0x2000 0x200a c
    || any (λ w. Tests.◌==◌ c w)
        (0x85 ∷ 0xa0 ∷ 0x1680 ∷ 0x2028 ∷ 0x2029 ∷ 0x202f ∷ 0x205f ∷ 0x3000 ∷ [])

-- `str.strip` removes nothing but whitespace, so `value.strip()` is empty when all of it is.
unfoldable pub is_blank : List ℕ → Bool
unfolding is_space
is_blank cs = all is_space cs

-- `str.strip`
strip_left : String → String
unfolding is_space
strip_left String.[] = String.[]
strip_left (String.◌∷◌ c s) = if is_space (code c) then strip_left s else String.◌∷◌ c s

reverse_onto : String → String → String
reverse_onto String.[] out = out
reverse_onto (String.◌∷◌ c s) out = reverse_onto s (String.◌∷◌ c out)

unfoldable pub strip : String → String
unfolding strip_left reverse_onto
strip s = reverse_onto (strip_left (reverse_onto (strip_left s) "")) ""
