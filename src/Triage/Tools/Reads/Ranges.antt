-- ===== src/Triage/Tools/Reads/Ranges.antt =====
-- What reading a part of a log promises.
use airtrace.Prelude.{
  ℕ, ◌+◌, ◌≤◌, ◌≡◌, refl, subst, sym, ap, ◌∙◌, Bool, true, false, not, Option, none, some, List,
  ◌++◌, leb, ◌&&◌, length, if◌then◌else◌, arith, Bool-cases, inl, inr,
}
use airtrace.Json.{Json, int}
use airtrace.Triage.Data.{Source, View, view_sources, mem_source, log_or_empty}
use airtrace.Triage.Tools.Rows.{bounded_rows}
use airtrace.Triage.Tools.Bounds.{is_empty, bounded_rows_lem}
use airtrace.Triage.Tools.Reads.{
  largest_number, integer, rows_from, lines_between, LogRead, read_between, read_from, read_checked,
  read_log,
}

-- What a read of the lines `first` to `last` gives.
abbrev pub IsPartOf : View → Source → ℕ → ℕ → LogRead → Type 0
IsPartOf view source first last r =
    (mem_source source (view_sources view.name) ≡ true)
    × (r.total_lines ≡ length (log_or_empty view.logs source))
    × (length r.rows.items ≤ 80)
    × ((rest : List Json) × (rows_from first
            (lines_between first last (log_or_empty view.logs source))
          ≡ r.rows.items ++ rest)
        × (r.rows.truncated ≡ not (is_empty rest)))

integer-some :
    (j : Json) (lo hi n : ℕ) → integer j lo hi ≡ some n → (j ≡ int n) × (lo ≤ n) × (n ≤ hi)
unfolding integer
integer-some (int m) lo hi n h = elim (Bool-cases (leb lo m && leb m hi)) [
  | inl inside ↦
      let value : some m ≡ some n = sym (ap (λ b. if b then some m else none) inside) ∙ h in
      let same : m ≡ n = ground arith in (ap int same, ground arith, ground arith)
  | inr outside ↦
      let value : none ≡ some n = sym (ap (λ b. if b then some m else none) outside) ∙ h in cc
]
integer-some _ lo hi n h = cc

abbrev OnSome : (LogRead → Type 0) → Option LogRead → Type 0
OnSome P none = Unit
OnSome P (some r) = P r

part_if :
    (view : View) (source : Source) (first last : ℕ) (allowed : Bool)
    → mem_source source (view_sources view.name) ≡ allowed
    → let lines = log_or_empty view.logs source in
      OnSome (IsPartOf view source first last) (
        if allowed
        then some (record {
          rows = bounded_rows (rows_from first (lines_between first last lines)) 80;
          total_lines = length lines;
        })
        else none)
part_if view source first last false e = tt
part_if view source first last true e =
    let lines = log_or_empty view.logs source in
    let (plain_fits, sorted_fits, few, (rest, split, flag, stops)) =
      bounded_rows_lem (rows_from first (lines_between first last lines)) 80 in
    (e, refl, few, (rest, split, flag))

read_between-IsPartOf :
    (view : View) (source : Source) (first last : ℕ)
    → OnSome (IsPartOf view source first last) (read_between view source first last)
unfolding read_between
read_between-IsPartOf view source first last =
    part_if view source first last (mem_source source (view_sources view.name)) refl

-- The bounds of a read that is not refused.
abbrev pub IsBounded : View → Source → Json → Json → LogRead → Type 0
IsBounded view source f l r =
    (first : ℕ) × (last : ℕ) × (f ≡ int first)
    × (l ≡ int last)
    × (1 ≤ first)
    × (first ≤ last)
    × (last ≤ first + 79)
    × IsPartOf view source first last r

read_from-IsBounded :
    (view : View) (source : Source) (f l : Json) (first : ℕ) (o : Option ℕ) (r : LogRead)
    → integer l first (first + 79) ≡ o
    → f ≡ int first
    → 1 ≤ first
    → read_from view source first o ≡ some r
    → IsBounded view source f l r
unfolding read_from
read_from-IsBounded view source f l first none r e p q h = cc
read_from-IsBounded view source f l first (some last) r e p q h =
    let (same, low, high) = integer-some l first (first + 79) last e in
    let part : IsPartOf view source first last r =
      subst (OnSome (IsPartOf view source first last)) h
        (read_between-IsPartOf view source first last) in
    (first, last, p, same, q, low, high, part)

read_checked-IsBounded :
    (view : View) (source : Source) (f l : Json) (o : Option ℕ) (r : LogRead)
    → integer f 1 largest_number ≡ o
    → read_checked view source o l ≡ some r
    → IsBounded view source f l r
unfolding read_checked
read_checked-IsBounded view source f l none r e h = cc
read_checked-IsBounded view source f l (some first) r e h =
    let (same, low, high) = integer-some f 1 largest_number first e in
    read_from-IsBounded view source f l first (integer l first (first + 79)) r refl same low h

-- A read that is not refused names a log of the view and integers with 1 ≤ start ≤ end ≤ start + 79,
-- and gives the number of the log's lines and at most 80 rows, which are the first rows of the numbered
-- lines in that range; it is marked truncated exactly where a row of the range is left out.
pub read_log-IsBounded :
    (view : View) (source : Source) (f l : Json) (r : LogRead)
    → read_log view source f l ≡ some r
    → IsBounded view source f l r
unfolding read_log
read_log-IsBounded view source f l r h =
    read_checked-IsBounded view source f l (integer f 1 largest_number) r refl h
