-- ===== src/Triage/Tools/Reads.antt =====
-- `integer`, `Toolbox.read_log` and `Toolbox.lookup_code` of triage/tools.py; `none` is the `ValueError`.
pub mod Ranges
use airtrace.Prelude.{
  ℕ, zero, suc, ◌+◌, ◌-◌, ◌^◌, min, Bool, true, false, Option, none, some, List, [], ◌∷◌, ◌&&◌, leb,
  ◌==◌, length, take, drop, if◌then◌else◌,
}
use airtrace.Text.Base.{Text, codes}
use airtrace.Json.{Json, int}
use airtrace.Triage.Data.{Source, View, view_sources, mem_source, log_or_empty}
use airtrace.Triage.Codes.{status_codes, reason_codes}
use airtrace.Triage.Tools.Rows.{log_row, Rows, bounded_rows}

-- `2**63 - 1`
abbrev pub largest_number : ℕ
largest_number = 9223372036854775807

-- `integer(value, minimum, maximum, name)`, with the value it accepts.
unfoldable pub integer : Json → ℕ → ℕ → Option ℕ
integer (int n) minimum maximum = if leb minimum n && leb n maximum then some n else none
integer _ minimum maximum = none

-- The rows of consecutive lines.
unfoldable pub rows_from : ℕ → List Text → List Json
rows_from number [] = []
rows_from number (line ∷ lines) = log_row number line ∷ rows_from (number + 1) lines

-- `lines[number - 1] for number in range(start, min(end, len(lines)) + 1)`
unfoldable pub lines_between : ℕ → ℕ → List Text → List Text
lines_between first last lines = take (min last (length lines) + 1 - first) (drop (first - 1) lines)

pub record LogRead : Type 0 where
  pub rows : Rows
  pub total_lines : ℕ

unfoldable pub read_between : View → Source → ℕ → ℕ → Option LogRead
read_between view source first last =
    let lines = log_or_empty view.logs source in
    if mem_source source (view_sources view.name)
    then some (record {
      rows = bounded_rows (rows_from first (lines_between first last lines)) 80;
      total_lines = length lines;
    })
    else none

unfoldable pub read_from : View → Source → ℕ → Option ℕ → Option LogRead
read_from view source first none = none
read_from view source first (some last) = read_between view source first last

unfoldable pub read_checked : View → Source → Option ℕ → Json → Option LogRead
read_checked view source none last = none
read_checked view source (some first) last =
    read_from view source first (integer last first (first + 79))

unfoldable pub read_log : View → Source → Json → Json → Option LogRead
read_log view source first last = read_checked view source (integer first 1 largest_number) last

pub data Kind : Type 0 where
  status reason : Kind

-- `table.get(code, "unknown")`
unfoldable pub meaning_of : List (ℕ × Text) → ℕ → Text
meaning_of [] code = codes "unknown"
meaning_of ((n, meaning) ∷ rest) code =
    let later = meaning_of rest code in if n == code then meaning else later

unfoldable pub table_of : Kind → List (ℕ × Text)
table_of status = status_codes
table_of reason = reason_codes

-- The meaning, for a code in [0, 65535].
unfoldable pub lookup_code : Kind → Json → Option Text
lookup_code kind code = elim (integer code 0 65535) [
  | none ↦ none
  | some n ↦ some (meaning_of (table_of kind) n)
]
