-- ===== src/Triage/Arms/RawLogs/Account.antt =====
-- The trimming record of one source describes its text, and the whole prompt keeps its budget.
use airtrace.Prelude.{
  ◌⊎◌, ℕ, zero, suc, ◌+◌, ◌-◌, ◌≤◌, ◌<◌, ◌≡◌, refl, ap, sym, subst, ◌∙◌, true, false, not, none,
  some, List, [], ◌∷◌, ◌++◌, ltb, ltb→lt, ◌==◌, length, take, drop, range, length-append, arith,
  Bool-cases, inl, inr,
}
use native.Mathlib.Nat.{le_trans}
use airtrace.Text.Base.{Text, join}
use airtrace.Text.Number.{show}
use airtrace.Triage.Data.{
  Source, hostapd, wpa_supplicant, dhcp_server, dhcp_client, View, ViewName, client, full,
  view_sources, log_or_empty,
}
use airtrace.Triage.Arms.RawLogs.{
  numbered_from, omission_marker, Chunk, chunk_of, head_size, tail_size, source_chunk,
  allocation_of, source_heading, source_chunks, bodies, raw_logs,
}
use airtrace.Triage.Arms.RawLogs.Head.{chars}
use airtrace.Triage.Arms.RawLogs.Budget.{
  HasRoom, Describes, length-omission_marker-le, length-numbered_from, head-le, tail-le, chars_head,
  chars_tail, marker-le, omits, chunk_within,
}

take_all : (ls : List Text) → take (length ls) ls ≡ ls
take_all [] = refl
take_all (l ∷ ls) = ap (◌∷◌ l) (take_all ls)

drop_all : (n : ℕ) (ls : List Text) → n ≡ length ls → drop n ls ≡ []
drop_all zero [] e = refl
drop_all zero (l ∷ ls) e = absurd (omega arith)
drop_all (suc n) [] e = refl
drop_all (suc n) (l ∷ ls) e = drop_all n ls (omega arith)

-- A chunk that takes `head` and `tail` lines and marks what lies between.
chunk_of-Describes :
    (heading : Text) (lines : List Text) (head tail : ℕ) (marker : Text) (allocation : ℕ)
    → head + tail ≤ length lines
    → length (chunk_of heading (numbered_from 1 lines) head tail marker allocation).body
      ≤ allocation
    → ltb allocation (length heading + chars (numbered_from 1 lines))
      ≡ not (length lines - head - tail == 0)
    → Describes heading lines allocation
        (chunk_of heading (numbered_from 1 lines) head tail marker allocation)
chunk_of-Describes heading lines head tail marker allocation h within t =
    let n = length-numbered_from 1 lines in
    unfold chunk_of in
    record {
      head = head;
      tail = tail;
      within = within;
      body =
          ap
            (λ k.
              heading
              ++ (join (take head (numbered_from 1 lines))
                  ++ (marker ++ join (drop (k - tail) (numbered_from 1 lines)))))
            n;
      head_numbers = refl;
      tail_numbers = ap (λ k. range (k - tail + 1) tail) n;
      every_line = omega (arith, n);
      trimmed_exactly = t ∙ ap (λ k. not (k - head - tail == 0)) (sym n);
      counted = refl;
    }

not_zero : (n : ℕ) → 0 < n → true ≡ not (n == 0)
not_zero n h = ground arith

none_out : (n : ℕ) → false ≡ not (n - n - 0 == 0)
none_out n = ground arith

-- Every log that leaves room for its heading and a marker is cut down to whole lines within its
-- allocation, and its trimming record describes the text: which line numbers stand in it, how many
-- lines are left out, and that it counts as trimmed exactly where a line is left out.
pub source_chunk-Describes :
    (heading : Text) (lines : List Text) (allocation : ℕ)
    → HasRoom heading lines allocation
    → Describes heading lines allocation (source_chunk heading lines allocation)
unfolding source_chunk
source_chunk-Describes heading lines allocation room =
    let numbered = numbered_from 1 lines in
    let n = length-numbered_from 1 lines in
    let room' : length heading + length (omission_marker (length numbered)) ≤ allocation =
      subst (λ k. length heading + length (omission_marker k) ≤ allocation) (sym n) room in
    let head = head_size heading numbered allocation in
    let tail = tail_size heading numbered allocation in
    elim (Bool-cases (ltb allocation (length heading + chars numbered))) [
      | inl over ↦
          let marker = omission_marker (length numbered - head - tail) in
          let some_out : 0 < length lines - head - tail =
            omega (arith, omits heading numbered allocation room' (ltb→lt _ _ over), n) in
          rw over (
            chunk_of-Describes heading lines head tail marker allocation
              (omega (
                arith,
                head-le heading numbered allocation,
                tail-le heading numbered allocation,
                n,
              ))
              (chunk_within heading numbered head tail marker allocation (
                omega (
                  arith,
                  room',
                  chars_head heading numbered allocation,
                  chars_tail heading numbered allocation,
                  marker-le heading numbered allocation,
                )))
              (over ∙ not_zero _ some_out))
      | inr fits ↦
          let all : drop (length numbered - 0) numbered ≡ [] = drop_all _ numbered (omega arith) in
          let size : length heading + chars numbered ≤ allocation = ground arith in
          rw fits (
            subst
              (λ k.
                Describes heading lines allocation (chunk_of heading numbered k 0 [] allocation))
              (sym n)
              (chunk_of-Describes heading lines (length lines) 0 [] allocation (omega arith)
                (chunk_within heading numbered (length lines) 0 [] allocation (
                  omega (
                    arith,
                    ap chars all,
                    ap (λ k. chars (take k numbered)) (sym n),
                    ap chars (take_all numbered),
                    size,
                  )))
                (fits ∙ none_out (length lines))))
    ]

-- More lines than any log has.
abbrev pub many_lines : ℕ
many_lines = 10000000000000000000000000000000000

length-omission_marker : (n : ℕ) → n < many_lines → length (omission_marker n) ≤ 59
length-omission_marker n h =
    le_trans (length-omission_marker-le n (many_lines - 1) (omega arith)) longest
  where
    longest : length (omission_marker (many_lines - 1)) ≤ 59
    longest = unfold omission_marker show in omega arith

length-source_heading : (s : Source) → length (source_heading s) ≤ 16
unfolding source_heading
length-source_heading hostapd = omega arith
length-source_heading wpa_supplicant = omega arith
length-source_heading dhcp_server = omega arith
length-source_heading dhcp_client = omega arith

-- The four or two allocations are the budget, and each has room for a heading and a marker.
allocations :
    (budget : ℕ)
    → 300 ≤ budget
    → (allocation_of budget 2 0 + allocation_of budget 2 1 ≡ budget)
      × (allocation_of budget 4 0
            + allocation_of budget 4 1
            + allocation_of budget 4 2
            + allocation_of budget 4 3
          ≡ budget)
unfolding allocation_of
allocations budget h = (ground arith, ground arith)

allocation-le :
    (budget count index : ℕ)
    → 300 ≤ budget
    → count ≤ 4
    → 0 < count
    → 75 ≤ allocation_of budget count index
unfolding allocation_of
allocation-le budget count index h c p = grind arith

module _ (view : View) (budget : ℕ) (enough : 300 ≤ budget)
    (short : (s : Source) → length (log_or_empty view.logs s) < many_lines) where
  source_within :
      (count index : ℕ) (s : Source)
      → count ≤ 4
      → 0 < count
      → length
          (source_chunk
            (source_heading s)
            (log_or_empty view.logs s)
            (allocation_of budget count index)).body
        ≤ allocation_of budget count index
  source_within count index s c p =
      (source_chunk-Describes (source_heading s) (log_or_empty view.logs s)
        (allocation_of budget count index)
        (omega (
          arith,
          length-source_heading s,
          length-omission_marker _ (short s),
          allocation-le budget count index enough c p,
        ))).within

  bodies-le :
      (name : ViewName)
      → length
          (bodies (source_chunks view budget (length (view_sources name)) 0 (view_sources name)))
        ≤ budget
  unfolding bodies source_chunks view_sources
  bodies-le client = simp length-append (
      omega (
        arith,
        source_within 2 0 wpa_supplicant (omega arith) (omega arith),
        source_within 2 1 dhcp_client (omega arith) (omega arith),
        (allocations budget enough).0,
      ))
  bodies-le full = simp length-append (
      omega (
        arith,
        source_within 4 0 hostapd (omega arith) (omega arith),
        source_within 4 1 wpa_supplicant (omega arith) (omega arith),
        source_within 4 2 dhcp_server (omega arith) (omega arith),
        source_within 4 3 dhcp_client (omega arith) (omega arith),
        (allocations budget enough).1,
      ))

-- A budget below 300 is refused; any other budget is kept: the text of all logs together, headings and
-- markers included, has at most `budget` characters, provided that no log has 10 ** 34 lines.
pub raw_logs_budget :
    (view : View) (budget : ℕ)
    → ((s : Source) → length (log_or_empty view.logs s) < many_lines)
    → (budget < 300) × (raw_logs view budget ≡ none)
      ⊎ (text : Text) × (chunks : List (Source × Chunk)) × (raw_logs view budget
          ≡ some (text, chunks))
        × (length text ≤ budget)
unfolding raw_logs
raw_logs_budget view budget short =
    let chunks =
      source_chunks view budget (length (view_sources view.name)) 0 (view_sources view.name) in
    elim (Bool-cases (ltb budget 300)) [
      | inl e ↦ inl (ltb→lt _ _ e, rw e)
      | inr e ↦
          let enough : 300 ≤ budget = ground arith in
          inr (bodies chunks, chunks, rw e, bodies-le view budget enough short view.name)
    ]
