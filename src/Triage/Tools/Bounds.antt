-- ===== src/Triage/Tools/Bounds.antt =====
-- What `bounded_rows` promises: a prefix of the rows, as long as its limits allow, whose JSON text
-- stays within the output limit.
use airtrace.Prelude.{
  ℕ, suc, ◌+◌, ◌≤◌, ◌<◌, ◌≡◌, refl, ap, Bool, true, false, not, List, [], ◌∷◌, ◌++◌, ltb, leb, ◌||◌,
  ◌⊎◌, length, sum_by, length-append, arith, Bool-cases, inl, inr,
}
use mathlib.Core.Path.{subst₂}
use airtrace.Json.{
  Json, bool, items, plain, sorted, default_separators, print, print_items, separated, quote,
  escape, dumps,
}
use airtrace.Json.Size.{length-dumps-sorted}
use airtrace.Triage.Tools.Rows.{output_limit, select_rows, Rows, bounded_rows, rows_json}

-- The characters that one row takes of the budget.
abbrev pub row_size : Json → ℕ
row_size row = length (dumps plain row) + 2

-- Why the loop broke off in front of the rows `rest`, with `count` rows and `used` characters taken.
abbrev pub StopsAt : ℕ → ℕ → ℕ → List Json → Type 0
StopsAt limit count used [] = Unit
StopsAt limit count used (row ∷ rest) = (limit ≤ count) ⊎ (output_limit < used + row_size row)

-- A prefix was selected, the rest was left because it did not fit, and the flag says that there is one.
abbrev pub is_empty : List Json → Bool
is_empty [] = true
is_empty (x ∷ xs) = false

record Selects (limit count used : ℕ) (rows : List Json) (out : List Json × Bool) : Type 0 where
  rest : List Json
  split : rows ≡ out.0 ++ rest
  flag : out.1 ≡ not (is_empty rest)
  full : StopsAt limit (count + length out.0) (used + sum_by row_size out.0) rest
  within_limit : count + length out.0 ≤ limit
  within_budget : used + sum_by row_size out.0 ≤ output_limit

StopsAt-same :
    (limit : ℕ) {count count' used used' : ℕ} (rest : List Json)
    → count ≡ count'
    → used ≡ used'
    → StopsAt limit count used rest
    → StopsAt limit count' used' rest
StopsAt-same limit rest p q h = subst₂ (λ c u. StopsAt limit c u rest) p q h

select_rows-Selects :
    (limit count used : ℕ) (rows : List Json)
    → count ≤ limit
    → used ≤ output_limit
    → Selects limit count used rows (select_rows limit count used rows)
unfolding select_rows
select_rows-Selects limit count used [] h k = record {
  rest = [];
  split = refl;
  flag = refl;
  full = tt;
  within_limit = omega arith;
  within_budget = omega arith;
}
select_rows-Selects limit count used (row ∷ rows) h k =
    elim (Bool-cases (leb limit count || ltb output_limit (used + row_size row))) [
      | inl stop ↦ rw stop (record {
        rest = row ∷ rows;
        split = refl;
        flag = refl;
        full = ground arith;
        within_limit = omega arith;
        within_budget = omega arith;
      })
      | inr go ↦
          let fits : (suc count ≤ limit) × (used + row_size row ≤ output_limit) = ground arith in
          let s =
            select_rows-Selects limit (count + 1) (used + row_size row) rows (omega arith) fits.1 in
          rw go (record {
            rest = s.rest;
            split = ap (◌∷◌ row) s.split;
            flag = s.flag;
            full = StopsAt-same limit s.rest (omega arith) (omega arith) s.full;
            within_limit = omega (arith, s.within_limit);
            within_budget = omega (arith, s.within_budget);
          })
    ]

length-print_items-more :
    (js : List Json) → length (print_items default_separators true (items js)) ≡ sum_by row_size js
unfolding items dumps print separated
length-print_items-more [] = refl
length-print_items-more (j ∷ js) = omega (
  arith,
  length-append (print default_separators j) (print_items default_separators true (items js)),
  length-print_items-more js,
)

length-print_items-le :
    (js : List Json) → length (print_items default_separators false (items js)) ≤ sum_by row_size js
unfolding items dumps print separated
length-print_items-le [] = omega arith
length-print_items-le (j ∷ js) = omega (
  arith,
  length-append (print default_separators j) (print_items default_separators true (items js)),
  length-print_items-more js,
)

length-bool-le : (b : Bool) → length (print default_separators (bool b)) ≤ 5
unfolding print
length-bool-le true = omega arith
length-bool-le false = omega arith

-- The dict around the selected rows takes at most 33 characters.
length-rows_json-le : (r : Rows) → length (dumps plain (rows_json r)) ≤ sum_by row_size r.items + 33
unfolding rows_json dumps print separated quote escape
length-rows_json-le r =
    simp length-append (omega (arith, length-print_items-le r.items, length-bool-le r.truncated))

-- Whatever the rows are, the JSON text of the answer, with or without sorted keys, has at most
-- 32000 characters; at most `limit` rows are selected, they are a prefix of the rows, `truncated`
-- says exactly whether a row was left out, and the first row left out is one that the limit or the
-- character budget has no room for.
pub bounded_rows_lem :
    (rows : List Json) (limit : ℕ)
    → let r = bounded_rows rows limit in
      (length (dumps plain (rows_json r)) ≤ output_limit)
      × (length (dumps sorted (rows_json r)) ≤ output_limit)
      × (length r.items ≤ limit)
      × ((rest : List Json) × (rows ≡ r.items ++ rest)
          × (r.truncated ≡ not (is_empty rest))
          × StopsAt limit (length r.items) (100 + sum_by row_size r.items) rest)
unfolding bounded_rows
bounded_rows_lem rows limit =
    let s = select_rows-Selects limit 0 100 rows (omega arith) (omega arith) in
    let r = bounded_rows rows limit in
    let short : length (dumps plain (rows_json r)) ≤ output_limit =
      omega (arith, length-rows_json-le r, s.within_budget) in
    (
      short,
      rw length-dumps-sorted short,
      omega (arith, s.within_limit),
      (s.rest, s.split, s.flag, StopsAt-same limit s.rest (omega arith) refl s.full),
    )
