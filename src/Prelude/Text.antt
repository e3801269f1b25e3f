-- ===== src/Prelude/Text.antt =====
-- Python's `str` where the code walks it: `lower`, `in`, `split` and `strip` over code points.
-- Lower-casing is that of the letters A to Z.
pub mod Strip
use Prim.Native.Nat.{ℕ, ◌+◌}
use Prim.Native.Char.{code}
use Prim.Native.String.{String}
use mathlib.Core.Bool.{Bool, true, false, ◌&&◌, ◌||◌}
use mathlib.Core.List.{List, [], ◌∷◌, map}
use mathlib.Core.Path.{◌≡◌, refl}
use text.Mathlib.Text.{◌==◌}
use routing.Prelude.Tests.{if◌then◌else◌, leb, ◌==ℕ◌}

unfoldable pub codes : String → List ℕ
codes String.[] = []
codes (String.◌∷◌ c s) = code c ∷ codes s

-- What `str.isspace` holds of.
unfoldable pub is_space : ℕ → Bool
is_space c =
    (leb 9 c && leb c 13)
    || (leb 28 c && leb c 32)
    || c ==ℕ 0x85
    || c ==ℕ 0xa0
    || c ==ℕ 0x1680
    || (leb 0x2000 c && leb c 0x200a)
    || c ==ℕ 0x2028
    || c ==ℕ 0x2029
    || c ==ℕ 0x202f
    || c ==ℕ 0x205f
    || c ==ℕ 0x3000

unfoldable pub lower_code : ℕ → ℕ
lower_code c = if leb 65 c && leb c 90 then c + 32 else c

abbrev pub lower : List ℕ → List ℕ
lower = map lower_code

-- `s.startswith(p)`
unfoldable pub starts : List ℕ → List ℕ → Bool
starts s [] = true
starts [] (c ∷ p) = false
starts (d ∷ s) (c ∷ p) = d ==ℕ c && starts s p

-- `p in s`
unfoldable pub contains : List ℕ → List ℕ → Bool
unfolding starts
contains [] p = starts [] p
contains (c ∷ s) p = starts (c ∷ s) p || contains s p

-- `s == p`
unfoldable pub same_codes : List ℕ → List ℕ → Bool
same_codes [] [] = true
same_codes (c ∷ s) (d ∷ p) = c ==ℕ d && same_codes s p
same_codes _ _ = false

-- A word is open when the character before it was no space: `len(s.split())` counts the openings.
unfoldable pub words_from : Bool → List ℕ → ℕ
unfolding is_space
words_from inside [] = 0
words_from inside (c ∷ s) =
    let rest = words_from (if is_space c then false else true) s in
    if is_space c then rest else if inside then rest else rest + 1

abbrev pub word_count : List ℕ → ℕ
word_count = words_from false

-- `s.strip()`, from the left and from the right.
unfoldable pub strip_left : String → String
unfolding is_space
strip_left String.[] = ""
strip_left (String.◌∷◌ c s) =
    let rest = strip_left s in if is_space (code c) then rest else String.◌∷◌ c s

unfoldable pub strip_right : String → String
unfolding is_space
strip_right String.[] = ""
strip_right (String.◌∷◌ c s) =
    let rest = strip_right s in if is_space (code c) && rest == "" then "" else String.◌∷◌ c rest

unfoldable pub strip : String → String
unfolding strip_left strip_right
strip s = strip_right (strip_left s)

strip_sample : strip "  a b \n" ≡ "a b"
unfolding strip
strip_sample = refl
