-- ===== src/Triage/Citations/Frames.antt =====
-- What a quotation of a frame must contain.
use airtrace.Prelude.{
  refl, ap, sym, ◌∙◌, ◌++◌, take, take-append-drop, length-take, length-append, append_assoc,
  drop-append_self, ℕ, zero, suc, ◌+◌, ◌≤◌, ◌≡◌, ◌↔◌, subst, true, List, [], ◌∷◌, ◌&&◌, length,
  drop, arith, Bool-cases, inl, inr,
}
use airtrace.Text.Base.{Text, starts_with}
use airtrace.Json.{Fields, sort_fields}
use airtrace.Triage.Data.{render_frame}
use airtrace.Triage.Schema.{members}
use airtrace.Json.Members.{led, trailed}
use airtrace.Triage.Citations.Members.{
  render_frame-at, covers-Inside, Inside-covers, starts_with-parts, starts_with-append,
  longer_front,
}
use airtrace.Triage.Citations.{spans, covers, covers_from, complete_frame_member}

-- The quote stands at the place `p` of the text, and a member lies inside it.
abbrev StandsAt : Text → List (ℕ × ℕ) → ℕ → Text → ℕ → Type 0
StandsAt quote ms start text p =
    (starts_with quote (drop p text) ≡ true)
    × (covers (start + p) (start + p + length quote) ms ≡ true)

module _ (quote : Text) (ms : List (ℕ × ℕ)) where
  StandsAt-later :
      (start c : ℕ) (cs : Text) (p : ℕ)
      → StandsAt quote ms (start + 1) cs p
      → StandsAt quote ms start (c ∷ cs) (suc p)
  StandsAt-later start c cs p h =
      let same : start + 1 + p ≡ start + suc p = omega arith in
      (h.0, subst (λ n. covers n (n + length quote) ms ≡ true) same h.1)

  StandsAt-earlier :
      (start c : ℕ) (cs : Text) (p : ℕ)
      → StandsAt quote ms start (c ∷ cs) (suc p)
      → StandsAt quote ms (start + 1) cs p
  StandsAt-earlier start c cs p h =
      let same : start + suc p ≡ start + 1 + p = omega arith in
      (h.0, subst (λ n. covers n (n + length quote) ms ≡ true) same h.1)

  here :
      (start : ℕ) (text : Text)
      → (starts_with quote text && covers start (start + length quote) ms) ≡ true
      → StandsAt quote ms start text 0
  here start text h =
      let same : start ≡ start + 0 = omega arith in
      (ground arith, subst (λ n. covers n (n + length quote) ms ≡ true) same (ground arith))

  at_start :
      (start : ℕ) (text : Text)
      → StandsAt quote ms start text 0
      → (starts_with quote text && covers start (start + length quote) ms) ≡ true
  at_start start text h =
      let same : start + 0 ≡ start = omega arith in
      let covered : covers start (start + length quote) ms ≡ true =
        subst (λ n. covers n (n + length quote) ms ≡ true) same h.1 in
      let stands : starts_with quote text ≡ true = h.0 in ground arith

  covers_from-StandsAt :
      (start : ℕ) (text : Text)
      → covers_from quote ms start text ≡ true
      → (p : ℕ) × (p ≤ length text) × StandsAt quote ms start text p
  unfolding covers_from
  covers_from-StandsAt start [] h = (0, omega arith, here start [] h)
  covers_from-StandsAt start (c ∷ cs) h =
      elim (Bool-cases (starts_with quote (c ∷ cs) && covers start (start + length quote) ms)) [
        | inl now ↦ (0, omega arith, here start (c ∷ cs) now)
        | inr not_yet ↦
            let (p, le, stands) = covers_from-StandsAt (start + 1) cs (ground arith) in
            (suc p, omega arith, StandsAt-later start c cs p stands)
      ]

  StandsAt-covers_from :
      (start : ℕ) (text : Text) (p : ℕ)
      → p ≤ length text
      → StandsAt quote ms start text p
      → covers_from quote ms start text ≡ true
  unfolding covers_from
  StandsAt-covers_from start [] zero le h = at_start start [] h
  StandsAt-covers_from start [] (suc p) le h = absurd (omega arith)
  StandsAt-covers_from start (c ∷ cs) zero le h =
      let now = at_start start (c ∷ cs) h in ground arith
  StandsAt-covers_from start (c ∷ cs) (suc p) le h =
      let later =
        StandsAt-covers_from (start + 1) cs p (omega arith) (StandsAt-earlier start c cs p h) in
      ground arith

-- The quote, which stands in a rendered frame behind `start` and in front of `stop`, reaches over the
-- member that is led by the members `as_` and trailed by the members `bs`.
abbrev pub HoldsMember : Fields → Text → Type 0
HoldsMember fields quote =
    (as_ : List Text) × (m : Text) × (bs : List Text) × (start : Text) × (left : Text)
    × (right : Text) × (stop : Text) × (members (sort_fields fields) ≡ as_ ++ m ∷ bs)
    × (render_frame fields ≡ start ++ (quote ++ stop))
    × (123 ∷ led as_ ≡ start ++ left)
    × (quote ≡ left ++ (m ++ right))
    × (trailed bs ++ 125 ∷ [] ≡ right ++ stop)

-- A place of the quote, and what stands in front of it and behind it.
StandsAt-HoldsMember :
    (fields : Fields) (quote : Text) (p : ℕ)
    → p ≤ length (render_frame fields)
    → StandsAt quote (spans 1 (members (sort_fields fields))) 0 (render_frame fields) p
    → HoldsMember fields quote
StandsAt-HoldsMember fields quote p le (stands, covered) =
    let text = render_frame fields in
    let (as_, m, bs, split, low, high) =
      covers-Inside (0 + p) (0 + p + length quote) 1 (members (sort_fields fields)) covered in
    let front = 123 ∷ led as_ in
    let back = trailed bs ++ 125 ∷ [] in
    let start = take p text in
    let stop = drop (length quote) (drop p text) in
    let cut : text ≡ start ++ (quote ++ stop) =
      sym (take-append-drop p text)
      ∙ ap (◌++◌ start) (starts_with-parts quote (drop p text) stands) in
    let size : length start ≡ p = omega (arith, length-take p text, le) in
    let (left, in_front, rest) =
      longer_front front (m ++ back) start (quote ++ stop)
        (sym (render_frame-at fields as_ m bs split) ∙ cut) (omega (arith, low, size)) in
    let (right, whole, behind) =
      longer_front quote stop (left ++ m) back (sym rest ∙ sym (append_assoc left m back)) (
        omega (
          arith,
          high,
          size,
          length-append left m,
          ap length in_front,
          length-append start left,
        )) in
    (
      as_,
      m,
      bs,
      start,
      left,
      right,
      stop,
      split,
      cut,
      in_front,
      whole ∙ append_assoc left m right,
      sym behind,
    )

HoldsMember-StandsAt :
    (fields : Fields) (quote : Text)
    → HoldsMember fields quote
    → (p : ℕ) × (p ≤ length (render_frame fields))
      × StandsAt quote (spans 1 (members (sort_fields fields))) 0 (render_frame fields) p
HoldsMember-StandsAt fields quote
      (as_, m, bs, start, left, right, stop, split, cut, in_front, whole, behind) =
    let text = render_frame fields in
    let after : drop (length start) text ≡ quote ++ stop =
      ap (drop (length start)) cut ∙ drop-append_self (length start) start (quote ++ stop) refl in
    (
      length start,
      omega (arith, ap length cut, length-append start (quote ++ stop)),
      (
        subst (λ (t : Text). starts_with quote t ≡ true) (sym after)
            (starts_with-append quote stop),
        subst
            (λ (ms : List Text).
              covers (0 + length start) (0 + length start + length quote) (spans 1 ms) ≡ true)
            (sym split)
            (Inside-covers (0 + length start) (0 + length start + length quote) 1 as_ m bs
              (omega (arith, ap length in_front, length-append start left))
              (omega (
                arith,
                ap length in_front,
                length-append start left,
                ap length whole,
                length-append left (m ++ right),
                length-append m right,
              ))),
      ),
    )

-- A frame quotation is accepted exactly where it stands in the rendered frame and reaches over a whole
-- top-level member: the frame is rendered as its members between braces with a separator between any
-- two, the quote begins at or before the first character of one of them, and ends at or behind its last.
pub complete_frame_member_iff :
    (fields : Fields) (quote : Text)
    → (complete_frame_member fields quote ≡ true) ↔ HoldsMember fields quote
unfolding complete_frame_member
complete_frame_member_iff fields quote =
    let ms = spans 1 (members (sort_fields fields)) in
    (
      (λ h.
          let (p, le, stands) = covers_from-StandsAt quote ms 0 (render_frame fields) h in
          StandsAt-HoldsMember fields quote p le stands),
      (λ h.
          let (p, le, stands) = HoldsMember-StandsAt fields quote h in
          StandsAt-covers_from quote ms 0 (render_frame fields) p le stands),
    )
