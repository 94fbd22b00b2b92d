-- ===== src/Base/Text.antt =====
-- `startsWith`, `slice` from a position and `trim` of JavaScript's texts.
use Prim.Native.Char.{Char, code}
use Prim.Native.String.{String, [], ◌∷◌}
use mathlib.Core.List.{List}
use pgjobq.Base.{map, ℕ, zero, suc, ◌+◌, Bool, true, false, ◌&&◌, ◌||◌, leb, ◌==◌, if◌then◌else◌}

unfoldable pub starts_with : String → String → Bool
starts_with [] s = true
starts_with (p ∷ ps) [] = false
starts_with (p ∷ ps) (c ∷ s) = code c == code p && starts_with ps s

-- `s.slice(n)`
unfoldable pub slice_from : ℕ → String → String
slice_from zero s = s
slice_from (suc n) [] = []
slice_from (suc n) (c ∷ s) = slice_from n s

-- `s.slice(0, n)`, on texts without surrogate pairs.
unfoldable pub slice_to : ℕ → String → String
slice_to zero s = []
slice_to (suc n) [] = []
slice_to (suc n) (c ∷ s) = c ∷ slice_to n s

-- The white space that `trim` takes off.
unfoldable pub is_space : ℕ → Bool
is_space c =
    (leb 9 c && leb c 13)
    || c == 32
    || c == 160
    || c == 5760
    || (leb 8192 c && leb c 8202)
    || c == 8232
    || c == 8233
    || c == 8239
    || c == 8287
    || c == 12288
    || c == 65279

unfoldable pub trim_start : String → String
unfolding is_space
trim_start [] = []
trim_start (c ∷ s) = let rest = trim_start s in if is_space (code c) then rest else c ∷ s

abbrev pub kept_before : Char → String → String
unfolding is_space
kept_before c [] = if is_space (code c) then [] else c ∷ []
kept_before c (d ∷ s) = c ∷ d ∷ s

unfoldable pub trim_end : String → String
trim_end [] = []
trim_end (c ∷ s) = kept_before c (trim_end s)

unfoldable pub trim : String → String
unfolding trim_start trim_end
trim s = trim_end (trim_start s)

-- `s.length`: the UTF-16 code units.
unfoldable pub utf16_length : String → ℕ
utf16_length [] = 0
utf16_length (c ∷ s) = (if leb 65536 (code c) then 2 else 1) + utf16_length s

-- `toLowerCase`, and the comparison that a pattern's flag `i` makes, on ASCII letters.
unfoldable pub lower : ℕ → ℕ
lower c = if leb 65 c && leb c 90 then c + 32 else c

-- Texts as code points, so that they can be searched.
abbrev pub codes : String → List ℕ
codes [] = List.[]
codes (c ∷ s) = List.◌∷◌ (code c) (codes s)

unfoldable pub lowered : String → List ℕ
unfolding lower
lowered s = map lower (codes s)

-- Texts within texts, as code points.
unfoldable pub is_prefix : List ℕ → List ℕ → Bool
is_prefix List.[] s = true
is_prefix (List.◌∷◌ p ps) List.[] = false
is_prefix (List.◌∷◌ p ps) (List.◌∷◌ c s) = c == p && is_prefix ps s

unfoldable pub contains : List ℕ → List ℕ → Bool
unfolding is_prefix
contains p List.[] = is_prefix p List.[]
contains p (List.◌∷◌ c s) = is_prefix p (List.◌∷◌ c s) || contains p s
