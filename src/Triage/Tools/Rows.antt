-- ===== src/Triage/Tools/Rows.antt =====
-- `bounded_rows` and `log_row` of triage/tools.py, and the size of what they return.
use airtrace.Prelude.{
  ℕ, ◌+◌, Bool, true, false, List, [], ◌∷◌, ltb, leb, ◌||◌, length, take, if◌then◌else◌,
}
use airtrace.Text.Base.{Text, codes}
use airtrace.Json.{Json, bool, int, string, array, object, items, end, field, plain, dumps}

abbrev pub output_limit : ℕ
output_limit = 32000

abbrev pub line_limit : ℕ
line_limit = 2000

unfoldable pub log_row : ℕ → Text → Json
log_row number line = object (
    field (codes "line") (int number) (
      field (codes "text") (string (take line_limit line))
        (field (codes "truncated") (bool (ltb line_limit (length line))) end)))

-- The rows that the loop of `bounded_rows` selects, and whether it broke off: `count` rows are
-- selected before and `used` characters are used.
unfoldable pub select_rows : ℕ → ℕ → ℕ → List Json → List Json × Bool
select_rows limit count used [] = ([], false)
select_rows limit count used (row ∷ rows) =
    let size = length (dumps plain row) + 2 in
    let later = select_rows limit (count + 1) (used + size) rows in
    if leb limit count || ltb output_limit (used + size)
    then ([], true)
    else (row ∷ later.0, later.1)

pub record Rows : Type 0 where
  pub items : List Json
  pub truncated : Bool

unfoldable pub bounded_rows : List Json → ℕ → Rows
bounded_rows rows limit =
    let selected = select_rows limit 0 100 rows in
    record { items = selected.0; truncated = selected.1 }

-- The returned dict.
unfoldable pub rows_json : Rows → Json
rows_json r = object (
    field (codes "items") (array (items r.items))
      (field (codes "truncated") (bool r.truncated) end))
