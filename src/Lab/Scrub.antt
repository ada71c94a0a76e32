-- ===== src/Lab/Scrub.antt =====
-- lab/scrub.py: removal of control-command echoes from the daemon logs.
pub mod Order
pub mod Safety
pub mod Split
mod Examples
use airtrace.Prelude.{
  ℕ, zero, suc, ◌+◌, ◌-◌, Bool, true, false, List, [], ◌∷◌, ◌++◌, ◌==◌, ◌&&◌, ◌||◌, not, length,
  if◌then◌else◌, map,
}
use airtrace.Text.Base.{Text, codes, is_space, is_blank, join, splitlines_keep}

-- One letter under `re.IGNORECASE`: the code points that match an "i" are "I", "i", "İ" and "ı";
-- the other letters of the token match their two cases alone, and "_" itself.
letter : ℕ → ℕ → Bool
letter p c =
    c == p || p == b'i' && (c == b'I' || c == 304 || c == 305) || not (p == b'_') && c + 32 == p

prefix_ignoring_case : Text → Text → Bool
unfolding letter
prefix_ignoring_case [] t = true
prefix_ignoring_case (p ∷ ps) [] = false
prefix_ignoring_case (p ∷ ps) (c ∷ cs) = letter p c && prefix_ignoring_case ps cs

search_ignoring_case : Text → Text → Bool
unfolding prefix_ignoring_case
search_ignoring_case p [] = prefix_ignoring_case p []
search_ignoring_case p (c ∷ cs) = prefix_ignoring_case p (c ∷ cs) || search_ignoring_case p cs

-- `bool(CONTROL_LINE.search(line))`
unfoldable pub control_line : Text → Bool
unfolding search_ignoring_case
control_line = search_ignoring_case (codes "ctrl_iface")

-- What follows the leading blanks begins with a character that is not blank.
after_indent : Text → Bool
after_indent [] = false
after_indent (c ∷ cs) = if c == 32 || c == 9 then after_indent cs else not (is_space c)

-- `bool(re.match(r"^[ \t]+\S", line))`
is_indented : Text → Bool
unfolding after_indent
is_indented [] = false
is_indented (c ∷ cs) = (c == 32 || c == 9) && after_indent cs

-- `is_echo or is_continuation`: the line goes, and the next one may continue it.
unfoldable pub removes : Bool → Text → Bool
unfolding is_indented
removes continuation line = control_line line || continuation && (is_blank line || is_indented line)

-- The loop of `retained_control_line_indexes` from index `i` on.
retained_from : ℕ → Bool → List Text → List ℕ
retained_from i continuation [] = []
retained_from i continuation (line ∷ lines) =
    let rest = retained_from (i + 1) true lines in
    let kept = i ∷ retained_from (i + 1) false lines in
    if removes continuation line then rest else kept

unfoldable pub retained_control_line_indexes : List Text → List ℕ
unfolding retained_from
retained_control_line_indexes lines = retained_from 0 false lines

-- `lines[index]`, for an index that is in range.
unfoldable pub line_at : List Text → ℕ → Text
line_at [] i = []
line_at (l ∷ ls) zero = l
line_at (l ∷ ls) (suc i) = line_at ls i

unfoldable pub scrub_control_lines : Text → Text × ℕ
scrub_control_lines text =
    let lines = splitlines_keep text in
    let kept = retained_control_line_indexes lines in
    (join (map (line_at lines) kept), length lines - length kept)
