-- ===== src/Triage/Citations/Lines.antt =====
-- A log citation that matches stands in the log.
use airtrace.Prelude.{
  ℕ, zero, suc, ◌-◌, ◌≤◌, ◌≡◌, refl, Bool, true, false, List, [], ◌∷◌, ◌&&◌, leb, leb→le, get_elem?,
  Option, none, some, arith, subst,
}
use airtrace.Text.Base.{contains, Text, starts_with}
use airtrace.Triage.Data.{
  View, Source, log, log_or_empty, contains_source, mem_source, view_sources,
}
use airtrace.Triage.Schema.{solid_chars}
use airtrace.Triage.Citations.{
  normalise, split_from, join_words, line_or_empty, cited_line, matched_log, matched,
}

-- Nothing but the empty text stands in the empty text.
contains-empty : (quote : Text) → contains quote [] ≡ true → solid_chars quote ≡ 0
unfolding contains starts_with solid_chars
contains-empty [] h = omega arith
contains-empty (c ∷ cs) h = cc

both_true : (a b : Bool) → (a && b) ≡ true → (a ≡ true) × (b ≡ true)
both_true true b h = (refl, h)
both_true false b h = cc

line_or_empty-Found :
    (o : Option Text) (quote : Text)
    → 12 ≤ solid_chars quote
    → contains quote (normalise (line_or_empty o)) ≡ true
    → (line : Text) × (o ≡ some line) × (contains quote (normalise line) ≡ true)
unfolding line_or_empty normalise split_from join_words
line_or_empty-Found none quote h k = absurd (omega (arith, contains-empty quote k))
line_or_empty-Found (some line) quote h k = (line, refl, k)

-- The cited line exists, since an empty one holds no quote.
cited_line-Found :
    (lines : List Text) (ref : ℕ) (quote : Text)
    → 12 ≤ solid_chars quote
    → contains quote (normalise (cited_line lines ref)) ≡ true
    → (1 ≤ ref)
      × ((line : Text) × (get_elem? lines (ref - 1) ≡ some line)
          × (contains quote (normalise line) ≡ true))
unfolding cited_line normalise split_from join_words
cited_line-Found lines zero quote h k = absurd (omega (arith, contains-empty quote k))
cited_line-Found lines (suc i) quote h k =
    let (line, e, stands) = line_or_empty-Found (get_elem? lines i) quote h k in
    let same : i ≡ suc i - 1 = omega arith in
    (omega arith, (line, subst (λ n. get_elem? lines n ≡ some line) same e, stands))

-- A citation of a log that matches names a log of the view and a line that the log has, and the quote,
-- with blanks made single, has twelve characters that are not blank and stands in that line.
pub matched-Stands :
    (view : View) (s : Source) (ref : ℕ) (quote : Text)
    → matched view (log s) ref quote ≡ true
    → (mem_source s (view_sources view.name) ≡ true)
      × (12 ≤ solid_chars (normalise quote))
      × (1 ≤ ref)
      × ((line : Text) × (get_elem? (log_or_empty view.logs s) (ref - 1) ≡ some line)
          × (contains (normalise quote) (normalise line) ≡ true))
unfolding matched matched_log contains_source
matched-Stands view s ref quote h =
    let (allowed, here) =
      both_true (contains_source view (log s)) (matched_log (log_or_empty view.logs s) ref quote)
        h in
    let (enough, stands) =
      both_true (leb 12 (solid_chars (normalise quote)))
        (contains (normalise quote) (normalise (cited_line (log_or_empty view.logs s) ref))) here in
    let long = leb→le 12 (solid_chars (normalise quote)) enough in
    let (positive, found) =
      cited_line-Found (log_or_empty view.logs s) ref (normalise quote) long stands in
    (allowed, long, positive, found)
