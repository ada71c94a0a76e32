-- ===== src/Text/Base.antt =====
-- Python's `str`: code points, the blank characters of `str.isspace` and `\s`, and comparisons.
use Prim.Native.Char.{code}
use Prim.Native.String.{String}
use airtrace.Prelude.{
  ◌++◌, not, if◌then◌else◌, ℕ, Bool, true, false, ◌&&◌, ◌||◌, List, [], ◌∷◌, ◌==◌, leb,
}

abbrev pub Text : Type 0
Text = List ℕ

-- A literal of the source.
abbrev pub codes : String → Text
codes String.[] = []
codes (String.◌∷◌ c s) = code c ∷ codes s

-- The characters that `str.split`, `str.strip` and `\s` take for blank.
unfoldable pub is_space : ℕ → Bool
is_space c =
    leb 9 c && leb c 13
    || leb 28 c && leb c 32
    || c == 133
    || c == 160
    || c == 5760
    || leb 8192 c && leb c 8202
    || c == 8232
    || c == 8233
    || c == 8239
    || c == 8287
    || c == 12288

-- The characters at which `str.splitlines` ends a line.
unfoldable pub is_break : ℕ → Bool
is_break c = leb 10 c && leb c 13 || leb 28 c && leb c 30 || c == 133 || c == 8232 || c == 8233

-- `not line.strip()`
unfoldable pub is_blank : Text → Bool
is_blank [] = true
is_blank (c ∷ cs) = is_space c && is_blank cs

unfoldable pub starts_with : Text → Text → Bool
starts_with [] t = true
starts_with (p ∷ ps) [] = false
starts_with (p ∷ ps) (c ∷ cs) = p == c && starts_with ps cs

-- `part in text`
unfoldable pub contains : Text → Text → Bool
contains part [] = starts_with part []
contains part (c ∷ cs) = starts_with part (c ∷ cs) || contains part cs

-- `"".join(lines)`
unfoldable pub join : List Text → Text
join [] = []
join (l ∷ ls) = l ++ join ls

unfoldable pub starts_lf : Text → Bool
starts_lf [] = false
starts_lf (c ∷ cs) = c == 10

-- A line ends at `c`, where `rest` follows: not between "\r" and "\n".
unfoldable pub ends_line : ℕ → Text → Bool
unfolding starts_lf
ends_line c rest = is_break c && not (c == 13 && starts_lf rest)

-- One more character before the first line.
unfoldable pub push : ℕ → List Text → List Text
push c [] = (c ∷ []) ∷ []
push c (l ∷ ls) = (c ∷ l) ∷ ls

-- `text.splitlines(keepends=True)`
unfoldable pub splitlines_keep : Text → List Text
unfolding push
splitlines_keep [] = []
splitlines_keep (c ∷ cs) =
    let rest = splitlines_keep cs in if ends_line c cs then (c ∷ []) ∷ rest else push c rest
