-- ===== src/Triage/Arms/RawLogs/Budget.antt =====
-- The prompt stays within its budget, and the trimming record describes it.
use mathlib.Core.List.{reverse}
use airtrace.Prelude.{
  ℕ, suc, ◌+◌, ◌-◌, ◌*◌, ◌/◌, ◌≤◌, ◌<◌, ◌≡◌, refl, ap, sym, ◌∙◌, not, List, [], ◌∷◌, ◌++◌, ltb,
  ltb→lt, ◌==◌, length, take, drop, range, length-append, length-drop, take-append-drop, arith,
  Bool-cases, inl, inr,
}
use airtrace.Text.Base.{Text, join}
use airtrace.Text.Number.{length-show-le}
use airtrace.Triage.Arms.RawLogs.{
  numbered_from, omission_marker, Chunk, chunk_of, head_size, tail_size,
}
use airtrace.Triage.Arms.RawLogs.Head.{
  chars, length-join, chars-append, fitting-le, chars-take-fitting, chars-take-reverse,
  length-reverse, drop-drop,
}

pub length-numbered_from : (n : ℕ) (ls : List Text) → length (numbered_from n ls) ≡ length ls
unfolding numbered_from
length-numbered_from n [] = refl
length-numbered_from n (l ∷ ls) = ap suc (length-numbered_from (n + 1) ls)

pub length-omission_marker-le :
    (a b : ℕ) → a ≤ b → length (omission_marker a) ≤ length (omission_marker b)
unfolding omission_marker
length-omission_marker-le a b h = simp length-append (omega (arith, length-show-le a b h))

-- Room for the heading and for a marker that counts every line.
abbrev pub HasRoom : Text → List Text → ℕ → Type 0
HasRoom heading lines allocation =
    length heading + length (omission_marker (length lines)) ≤ allocation

module _ (heading : Text) (numbered : List Text) (allocation : ℕ) where
  abbrev pub reserve : ℕ
  reserve = length (omission_marker (length numbered))

  abbrev pub available : ℕ
  available = allocation - length heading - reserve

  abbrev pub head : ℕ
  head = head_size heading numbered allocation

  abbrev pub tail : ℕ
  tail = tail_size heading numbered allocation

  pub head-le : head ≤ length numbered
  unfolding head_size
  head-le = fitting-le (available * 3 / 20) 0 numbered

  pub tail-le : tail ≤ length numbered - head
  unfolding tail_size
  tail-le =
      let rest = drop head numbered in
      omega (
        arith,
        fitting-le (available - available * 3 / 20) 0 (reverse rest),
        length-reverse rest,
        length-drop head numbered,
      )

  pub chars_head : chars (take head numbered) ≤ available * 3 / 20
  unfolding head_size
  chars_head = omega (arith, chars-take-fitting (available * 3 / 20) 0 numbered (omega arith))

  chars_tail_reversed :
      chars (take tail (reverse (drop head numbered))) ≤ available - available * 3 / 20
  unfolding tail_size
  chars_tail_reversed = omega (
    arith,
    chars-take-fitting (available - available * 3 / 20) 0 (reverse (drop head numbered))
        (omega arith),
  )

  pub chars_tail : chars (drop (length numbered - tail) numbered) ≤ available - available * 3 / 20
  chars_tail =
      let rest = drop head numbered in
      let h = head-le in
      let t = tail-le in
      let n = length-drop head numbered in
      let back : tail ≤ length rest = omega (arith, h, t, n) in
      let e : head + (length rest - tail) ≡ length numbered - tail = omega (arith, h, t, n) in
      let same : drop (length rest - tail) rest ≡ drop (length numbered - tail) numbered =
        drop-drop (length rest - tail) head numbered ∙ ap (λ k. drop k numbered) e in
      omega (arith, ap chars same, chars-take-reverse tail rest back, chars_tail_reversed)

  pub marker-le : length (omission_marker (length numbered - head - tail)) ≤ reserve
  marker-le =
      length-omission_marker-le (length numbered - head - tail) (length numbered) (omega arith)

  -- Where the log does not fit, some line is left out.
  pub omits :
      length heading + reserve ≤ allocation
      → allocation < length heading + chars numbered
      → 0 < length numbered - head - tail
  omits room over = elim (Bool-cases (ltb 0 (length numbered - head - tail))) [
    | inl e ↦ ltb→lt _ _ e
    | inr e ↦
        let all : length numbered - tail ≡ head = ground (arith, head-le, tail-le) in
        let parts =
          ap chars (sym (take-append-drop head numbered))
          ∙ chars-append (take head numbered) (drop head numbered) in
        let last = ap (λ k. chars (drop k numbered)) all in
        absurd (omega (arith, parts, last, chars_head, chars_tail))
  ]

-- The account of one source: what `trimming` says is what the text holds. The text is the heading, the
-- first lines, the marker and the last lines, each whole and under its own number.
pub record Describes (heading : Text) (lines : List Text) (allocation : ℕ) (c : Chunk)
    : Type 0 where
  pub head : ℕ
  pub tail : ℕ
  pub within : length c.body ≤ allocation
  pub body :
      c.body
      ≡ heading
        ++ (join (take head (numbered_from 1 lines))
            ++ (c.marker ++ join (drop (length lines - tail) (numbered_from 1 lines))))
  pub head_numbers : c.head_line_numbers ≡ range 1 head
  pub tail_numbers : c.tail_line_numbers ≡ range (length lines - tail + 1) tail
  pub every_line : head + tail + c.omitted_lines ≡ length lines
  pub trimmed_exactly : c.trimmed ≡ not (c.omitted_lines == 0)
  pub counted : c.included_chars ≡ length c.body

pub chunk_within :
    (heading : Text) (numbered : List Text) (head tail : ℕ) (marker : Text) (allocation : ℕ)
    → length heading
        + chars (take head numbered)
        + length marker
        + chars (drop (length numbered - tail) numbered)
      ≤ allocation
    → length (chunk_of heading numbered head tail marker allocation).body ≤ allocation
unfolding chunk_of
chunk_within heading numbered head tail marker allocation h =
    let back = drop (length numbered - tail) numbered in
    omega (
      arith,
      length-append heading (join (take head numbered) ++ (marker ++ join back)),
      length-append (join (take head numbered)) (marker ++ join back),
      length-append marker (join back),
      length-join (take head numbered),
      length-join back,
    )
