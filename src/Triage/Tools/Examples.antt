-- ===== src/Triage/Tools/Examples.antt =====
-- Three rows of a log under a limit of two, a read of two lines, and the theorems at them.
use airtrace.Prelude.{
  false, List, [], length, not, refl, some, sum_by, true, ◌++◌, ◌+◌, ◌∷◌, ◌≡◌, ◌≤◌,
}
use airtrace.Text.Base.{codes}
use airtrace.Text.Number.{show}
use airtrace.Json.{Json, int, plain, sorted, dumps, print, quote, escape, separated}
use airtrace.Triage.Data.{
  wpa_supplicant, View, client, make_view, view_sources, mem_source, log_of, log_or_empty,
  source_eq,
}
use airtrace.Triage.Tools.Reads.{
  integer, rows_from, lines_between, LogRead, read_between, read_from, read_checked, read_log,
}
use airtrace.Triage.Tools.Reads.Ranges.{IsBounded, read_log-IsBounded}
use airtrace.Triage.Tools.Rows.{output_limit, log_row, select_rows, bounded_rows, rows_json}
use airtrace.Triage.Tools.Bounds.{row_size, is_empty, StopsAt, bounded_rows_lem}

abbrev three_rows : List Json
three_rows = log_row 1 (codes "first") ∷ log_row 2 (codes "second") ∷ log_row 3 (codes "third") ∷ []

two_fit :
    (length (bounded_rows three_rows 2).items ≡ 2) × ((bounded_rows three_rows 2).truncated ≡ true)
unfolding bounded_rows select_rows log_row dumps print quote escape separated show
two_fit = (refl, refl)

bounded_rows_lem_example :
    let r = bounded_rows three_rows 2 in
    (length (dumps plain (rows_json r)) ≤ output_limit)
    × (length (dumps sorted (rows_json r)) ≤ output_limit)
    × (length r.items ≤ 2)
    × ((rest : List Json) × (three_rows ≡ r.items ++ rest)
        × (r.truncated ≡ not (is_empty rest))
        × StopsAt 2 (length r.items) (100 + sum_by row_size r.items) rest)
bounded_rows_lem_example = bounded_rows_lem three_rows 2

abbrev observed : View
observed =
    make_view [] ((wpa_supplicant, codes "first" ∷ codes "second" ∷ codes "third" ∷ []) ∷ []) []
      client

abbrev second_on : LogRead
second_on = record {
  rows = record {
    items = log_row 2 (codes "second") ∷ log_row 3 (codes "third") ∷ [];
    truncated = false;
  };
  total_lines = 3;
}

is_read : read_log observed wpa_supplicant (int 2) (int 9) ≡ some second_on
unfolding read_log read_checked read_from read_between integer rows_from lines_between mem_source
    make_view view_sources log_of log_or_empty source_eq bounded_rows select_rows log_row dumps
    print quote escape separated show
is_read = refl

read_log-IsBounded_example : IsBounded observed wpa_supplicant (int 2) (int 9) second_on
read_log-IsBounded_example =
    read_log-IsBounded observed wpa_supplicant (int 2) (int 9) second_on is_read
