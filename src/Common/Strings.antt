-- ===== src/Common/Strings.antt =====
-- Python's `str` as the list of its code points.
use Prim.Native.Nat.{ℕ, ◌+◌}
use Prim.Native.Char.{code}
use Prim.Native.String.{String}
use mathlib.Core.Path.{◌≡◌, refl}
use mathlib.Core.Bool.{Bool, true, false, ◌&&◌, ◌||◌}
use mathlib.Core.List.{List, [], ◌∷◌, reverse, map}
use ki_use_case_radar.Common.Tests.{leb, ◌==◌, if◌then◌else◌}
use ki_use_case_radar.Common.Lists.{any}

abbrev pub Text : Type 0
Text = List ℕ

-- A literal of the source as its code points. `String` has its own `[]` and `∷`.
abbrev pub codes : String → Text
codes String.[] = []
codes (String.◌∷◌ c s) = code c ∷ codes s

-- `str.isspace` of one code point
abbrev pub is_space : ℕ → Bool
is_space c =
    leb 9 c && leb c 13
    || leb 28 c && leb c 32
    || any (λ s. c == s) (133 ∷ 160 ∷ 5760 ∷ 8232 ∷ 8233 ∷ 8239 ∷ 8287 ∷ 12288 ∷ [])
    || leb 8192 c && leb c 8202

pub drop_space : Text → Text
drop_space [] = []
drop_space (c ∷ t) = if is_space c then drop_space t else c ∷ t

-- `str.strip`
unfoldable pub strip : Text → Text
unfolding drop_space
strip t = reverse (drop_space (reverse (drop_space t)))

-- `bool(s)` of a text
abbrev pub truthy : Text → Bool
truthy [] = false
truthy (c ∷ t) = true

-- `bool(s.strip())`
unfoldable pub has_text : Text → Bool
unfolding strip
has_text t = truthy (strip t)

abbrev pub text_eq : Text → Text → Bool
text_eq [] [] = true
text_eq (a ∷ s) (b ∷ t) = a == b && text_eq s t
text_eq _ _ = false

-- The part of `str.casefold` that can yield an ASCII letter of the words compared with:
-- A to Z, and the long s.
abbrev pub fold_char : ℕ → ℕ
fold_char c = if leb 65 c && leb c 90 then c + 32 else if c == 383 then 115 else c

abbrev pub casefold : Text → Text
casefold = map fold_char

strip_example : strip (codes "  ab c ") ≡ codes "ab c"
unfolding strip
strip_example = refl

has_text_blank : has_text (codes "   ") ≡ false
unfolding has_text
has_text_blank = refl
