-- ===== src/Triage/Arms/RawLogs.antt =====
-- `raw_logs` of triage/arms.py: whole numbered lines within a character budget. Python computes
-- `int(available * 0.15)` in floating point; for every size below 2 ** 45 the rounded product and the
-- exact one have one integer part, `available * 3 / 20`.
pub mod Head
pub mod Budget
pub mod Account
mod Examples
use airtrace.Prelude.{
  ℕ, zero, suc, ◌+◌, ◌-◌, ◌*◌, ◌/◌, ◌%◌, Bool, true, false, Option, none, some, List, [], ◌∷◌, ◌++◌,
  ltb, leb, ◌||◌, not, length, sum_by, take, drop, if◌then◌else◌, range,
}
use mathlib.Core.List.{reverse}
use airtrace.Text.Base.{Text, codes, join}
use airtrace.Text.Number.{show}
use airtrace.Triage.Data.{Source, source_name, View, view_sources, log_or_empty}

-- `str(number) + ": " + line + "\n"`
unfoldable pub numbered_line : ℕ → Text → Text
numbered_line number line = show number ++ (codes ": " ++ (line ++ 10 ∷ []))

-- `enumerate(lines, 1)`
unfoldable pub numbered_from : ℕ → List Text → List Text
numbered_from number [] = []
numbered_from number (line ∷ lines) = numbered_line number line ∷ numbered_from (number + 1) lines

-- How many leading lines fit, each as long as it is: the loop breaks at the first that does not.
unfoldable pub fitting : ℕ → ℕ → List Text → ℕ
fitting budget size [] = 0
fitting budget size (line ∷ lines) =
    let more = suc (fitting budget (size + length line) lines) in
    if ltb budget (size + length line) then 0 else more

unfoldable pub omission_marker : ℕ → Text
omission_marker omitted =
    codes "[... " ++ (show omitted ++ (codes " lines omitted ..." ++ 93 ∷ 10 ∷ []))

-- What one source contributes to the prompt, and its entry in `trimming`.
pub record Chunk : Type 0 where
  pub body : Text
  pub total_lines : ℕ
  pub head_line_numbers : List ℕ
  pub tail_line_numbers : List ℕ
  pub omitted_lines : ℕ
  pub original_chars : ℕ
  pub included_chars : ℕ
  pub allocated_chars : ℕ
  pub marker : Text
  pub trimmed : Bool

-- Head and tail of `numbered`: the first `head` and the last `tail` of its lines, with the marker.
unfoldable pub chunk_of : Text → List Text → ℕ → ℕ → Text → ℕ → Chunk
chunk_of heading numbered head tail marker allocation =
    let total = length numbered in
    let original = length heading + sum_by length numbered in
    let body =
      heading ++ (join (take head numbered) ++ (marker ++ join (drop (total - tail) numbered))) in
    record {
      body = body;
      total_lines = total;
      head_line_numbers = range 1 head;
      tail_line_numbers = range (total - tail + 1) tail;
      omitted_lines = total - head - tail;
      original_chars = original;
      included_chars = length body;
      allocated_chars = allocation;
      marker = marker;
      trimmed = ltb allocation original;
    }

-- The sizes of head and tail where the log does not fit its allocation: 15% of what the heading and
-- the marker leave go to the head, and the tail takes its lines from the end, outside the head.
unfoldable pub head_size : Text → List Text → ℕ → ℕ
head_size heading numbered allocation =
    let reserve = length (omission_marker (length numbered)) in
    let available = allocation - length heading - reserve in fitting (available * 3 / 20) 0 numbered

unfoldable pub tail_size : Text → List Text → ℕ → ℕ
tail_size heading numbered allocation =
    let reserve = length (omission_marker (length numbered)) in
    let available = allocation - length heading - reserve in
    fitting (available - available * 3 / 20) 0
      (reverse (drop (head_size heading numbered allocation) numbered))

unfoldable pub source_chunk : Text → List Text → ℕ → Chunk
source_chunk heading lines allocation =
    let numbered = numbered_from 1 lines in
    let head = head_size heading numbered allocation in
    let tail = tail_size heading numbered allocation in
    if ltb allocation (length heading + sum_by length numbered)
    then chunk_of heading numbered head tail (omission_marker (length numbered - head - tail))
        allocation
    else chunk_of heading numbered (length numbered) 0 [] allocation

-- `allocation = budget // len(sources)`, one more for the first `budget % len(sources)` sources.
unfoldable pub allocation_of : ℕ → ℕ → ℕ → ℕ
allocation_of budget count index = budget / count + (if ltb index (budget % count) then 1 else 0)

unfoldable pub source_heading : Source → Text
source_heading s = source_name s ++ codes ":" ++ 10 ∷ []

unfoldable pub source_chunks : View → ℕ → ℕ → ℕ → List Source → List (Source × Chunk)
source_chunks view budget count index [] = []
source_chunks view budget count index (s ∷ ss) =
    (
      s,
      source_chunk (source_heading s) (log_or_empty view.logs s) (allocation_of budget count index),
    )
    ∷ source_chunks view budget count (index + 1) ss

unfoldable pub bodies : List (Source × Chunk) → Text
bodies [] = []
bodies ((s, c) ∷ cs) = c.body ++ bodies cs

-- The prompt text and the trimming record; `none` is the `ValueError` of a budget below 300.
unfoldable pub raw_logs : View → ℕ → Option (Text × List (Source × Chunk))
raw_logs view budget =
    let allowed = view_sources view.name in
    let chunks = source_chunks view budget (length allowed) 0 allowed in
    if ltb budget 300 then none else some (bodies chunks, chunks)
