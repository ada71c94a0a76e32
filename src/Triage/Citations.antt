-- ===== src/Triage/Citations.antt =====
-- triage/citations.py: whether quotations exist, not whether they prove a diagnosis.
pub mod Counts
pub mod Members
pub mod Frames
pub mod Lines
mod Examples
use airtrace.Prelude.{
  ℕ, zero, suc, ◌+◌, ◌-◌, Bool, true, false, not, Option, none, some, List, [], ◌∷◌, ◌++◌, ◌&&◌,
  ◌||◌, ltb, leb, ◌==◌, length, count_by, bit, get_elem?, if◌then◌else◌,
}
use airtrace.Text.Base.{contains, Text, is_space, starts_with}
use airtrace.Json.{Json, Fields, end, field, object, sorted, dumps, sort_fields}
use airtrace.Triage.Data.{View, render_frame, Cited, frame, log, log_or_empty, contains_source}
use airtrace.Triage.Schema.{Evidence, Diagnosis, solid_chars, members}

-- One more character in front of `text.split()`: `open` says that a word goes on at it.
split_from : Text → Bool × List Text
split_from [] = (false, [])
split_from (c ∷ cs) =
    let rest = split_from cs in
    if is_space c then (false, rest.1) else (true, put_front rest.0 c rest.1)
  where
    put_front : Bool → ℕ → List Text → List Text
    put_front true c (w ∷ ws) = (c ∷ w) ∷ ws
    put_front _ c ws = (c ∷ []) ∷ ws

-- `" ".join(words)`
join_words : List Text → Text
join_words [] = []
join_words (w ∷ []) = w
join_words (w ∷ v ∷ ws) = w ++ 32 ∷ join_words (v ∷ ws)

unfoldable pub normalise : Text → Text
unfolding split_from join_words
normalise text = join_words (split_from text).1

-- `member_spans`, from a position on.
unfoldable pub spans : ℕ → List Text → List (ℕ × ℕ)
spans position [] = []
spans position (m ∷ ms) = (position, position + length m) ∷ spans (position + length m + 2) ms

-- `any(start <= first and last <= end for first, last in member_spans)`
unfoldable pub covers : ℕ → ℕ → List (ℕ × ℕ) → Bool
covers start stop [] = false
covers start stop ((first, last) ∷ rest) =
    leb start first && leb last stop || covers start stop rest

-- The loop over `text.find(quote, start)`, which visits every place where the quote stands.
unfoldable pub covers_from : Text → List (ℕ × ℕ) → ℕ → Text → Bool
covers_from quote members start [] =
    starts_with quote [] && covers start (start + length quote) members
covers_from quote members start (c ∷ cs) =
    starts_with quote (c ∷ cs) && covers start (start + length quote) members
    || covers_from quote members (start + 1) cs

unfoldable pub complete_frame_member : Fields → Text → Bool
complete_frame_member fields quote =
    covers_from quote (spans 1 (members (sort_fields fields))) 0 (render_frame fields)

-- `view.frames.get(number)`
unfoldable pub frame_at : List (ℕ × Fields) → ℕ → Option Fields
frame_at [] number = none
frame_at ((n, fields) ∷ frames) number =
    let rest = frame_at frames number in if n == number then some fields else rest

unfoldable pub line_or_empty : Option Text → Text
line_or_empty none = []
line_or_empty (some line) = line

-- `lines[ref - 1] if 1 <= ref <= len(lines) else ""`
unfoldable pub cited_line : List Text → ℕ → Text
cited_line lines zero = []
cited_line lines (suc i) = line_or_empty (get_elem? lines i)

-- `matched` and `occurrences` of an item.
unfoldable pub matched_log : List Text → ℕ → Text → Bool
matched_log lines ref given =
    let quote = normalise given in
    leb 12 (solid_chars quote) && contains quote (normalise (cited_line lines ref))

is_empty_text : Text → Bool
is_empty_text [] = true
is_empty_text (c ∷ cs) = false

unfoldable pub occurrences_log : List Text → Text → ℕ
unfolding is_empty_text
occurrences_log lines given =
    let quote = normalise given in
    count_by (λ line. not (is_empty_text quote) && contains quote (normalise line)) lines

unfoldable pub matched_frame : Option Fields → Text → Bool
matched_frame none quote = false
matched_frame (some fields) quote = complete_frame_member fields quote

unfoldable pub matched : View → Cited → ℕ → Text → Bool
matched view frame ref quote = matched_frame (frame_at view.frames ref) quote
matched view (log s) ref quote =
    contains_source view (log s) && matched_log (log_or_empty view.logs s) ref quote

unfoldable pub occurrences : View → Cited → Text → ℕ
occurrences view frame quote = count_by (λ f. contains quote (render_frame f.1)) view.frames
occurrences view (log s) quote =
    if contains_source view (log s) then occurrences_log (log_or_empty view.logs s) quote else 0

pub record CheckedItem : Type 0 where
  pub source : Cited
  pub ref : ℕ
  pub valid : Bool
  pub ambiguous : Bool
  pub auto : Bool

pub record Checked : Type 0 where
  pub valid : ℕ
  pub invalid : ℕ
  pub all_valid : Bool
  pub ambiguous : ℕ
  pub eligible : ℕ
  pub auto : ℕ
  pub items : List CheckedItem

unfoldable pub check_item : View → Evidence → CheckedItem
check_item view e = record {
  source = e.source;
  ref = e.ref;
  valid = matched view e.source e.ref e.quote;
  ambiguous = ltb 3 (occurrences view e.source e.quote);
  auto = e.auto;
}

-- The counters of the loop and the items so far.
pub record Tally : Type 0 where
  pub valid : ℕ
  pub invalid : ℕ
  pub ambiguous : ℕ
  pub items : List CheckedItem

unfoldable pub tally_item : Tally → CheckedItem → Tally
tally_item t i =
    let counted = record t { items = t.items ++ i ∷ [] } in
    if i.auto then counted else record counted {
      valid = t.valid + bit i.valid;
      invalid = t.invalid + bit (not i.valid);
      ambiguous = t.ambiguous + bit i.ambiguous;
    }

unfoldable pub tally_all : View → Tally → List Evidence → Tally
tally_all view t [] = t
tally_all view t (e ∷ es) = tally_all view (tally_item t (check_item view e)) es

unfoldable pub check : Diagnosis → View → Checked
check diagnosis view =
    let t =
      tally_all view (record { valid = 0; invalid = 0; ambiguous = 0; items = [] })
        diagnosis.evidence in
    record {
      valid = t.valid;
      invalid = t.invalid;
      all_valid = t.invalid == 0 && ltb 0 t.valid;
      ambiguous = t.ambiguous;
      eligible = t.valid + t.invalid;
      auto = count_by (λ e. e.auto) diagnosis.evidence;
      items = t.items;
    }
