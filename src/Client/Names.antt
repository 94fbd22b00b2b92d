-- ===== src/Client/Names.antt =====
-- packages/core/src/client.ts, `validateName`.
use Prim.Native.Char.{Char, code}
use Prim.Native.String.{String, [], ◌∷◌, count}
use pgjobq.Base.{ℕ, Bool, true, ◌&&◌, ◌||◌, leb, ◌==◌}

abbrev between : ℕ → ℕ → ℕ → Bool
between a b c = leb a c && leb c b

-- The class `[a-zA-Z0-9._:-]`, by code points; the colon comes right after the digits.
unfoldable pub is_name_char : Char → Bool
is_name_char c =
    between 97 122 (code c)
    || between 65 90 (code c)
    || between 48 58 (code c)
    || code c == 46
    || code c == 95
    || code c == 45

unfoldable pub name_chars : String → Bool
unfolding is_name_char
name_chars [] = true
name_chars (c ∷ s) = is_name_char c && name_chars s

-- Of a text in that class, `value.length` is its number of characters.
unfoldable pub valid_name : String → Bool
unfolding name_chars
valid_name s = leb 1 (count s) && leb (count s) 128 && name_chars s
