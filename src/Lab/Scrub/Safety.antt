-- ===== src/Lab/Scrub/Safety.antt =====
-- What scrubbing a daemon log removes, and what it keeps.
use airtrace.Prelude.{
  length-map, ◌+◌, ◌-◌, ◌≤◌, ◌≡◌, refl, ap, ap₂, sym, ◌∙◌, Bool, true, false, List, [], ◌∷◌, inl,
  inr, arith, Bool-cases, length, if◌then◌else◌, All, not, ◌||◌,
}
use airtrace.Text.Base.{Text, is_blank, join, splitlines_keep}
use airtrace.Lab.Scrub.{
  control_line, is_indented, removes, retained_control_line_indexes, line_at, scrub_control_lines,
}
use airtrace.Lab.Scrub.Order.{retain}
use airtrace.Lab.Scrub.Split.{lines-retained, scrub-eq-join, splitlines_keep-scrub}

pub retain-no_control :
    (continuation : Bool) (lines : List Text)
    → All (λ l. control_line l ≡ false) (retain continuation lines)
unfolding retain
retain-no_control continuation [] = tt
retain-no_control continuation (l ∷ ls) = elim (Bool-cases (removes continuation l)) [
  | inl gone ↦ rw gone (retain-no_control true ls)
  | inr kept ↦ rw kept (unfold removes in ground arith, retain-no_control false ls)
]

-- No line of a scrubbed log holds the control-interface token, in any case.
pub scrub-no_control :
    (t : Text) → All (λ l. control_line l ≡ false) (splitlines_keep (scrub_control_lines t).0)
scrub-no_control t = rw splitlines_keep-scrub (retain-no_control false (splitlines_keep t))

-- A line that neither holds the token nor can continue another line.
pub is_event : Text → Bool
is_event l = not (control_line l || is_blank l || is_indented l)

pub events : List Text → List Text
events [] = []
events (l ∷ ls) = let rest = events ls in if is_event l then l ∷ rest else rest

events-retain :
    (continuation : Bool) (lines : List Text) → events (retain continuation lines) ≡ events lines
unfolding retain events
events-retain continuation [] = refl
events-retain continuation (l ∷ ls) = elim (Bool-cases (removes continuation l)) [
  | inl gone ↦ rw (gone, events-retain true ls) (unfold removes is_event in ground arith)
  | inr kept ↦ rw (kept, events-retain false ls)
]

-- Every event line of the log survives, in its order and as often as before: a line that has no
-- token, is not blank and does not begin with a space or a tab is never removed.
pub events-scrub :
    (t : Text) → events (splitlines_keep (scrub_control_lines t).0) ≡ events (splitlines_keep t)
events-scrub t = rw splitlines_keep-scrub (events-retain false (splitlines_keep t))

retain-All :
    (lines : List Text) → All (λ l. control_line l ≡ false) lines → retain false lines ≡ lines
unfolding retain
retain-All [] h = refl
retain-All (l ∷ ls) h =
    let kept : removes false l ≡ false = unfold removes in ground arith in
    rw (kept, retain-All ls h.1)

pub length-retain-le :
    (continuation : Bool) (lines : List Text) → length (retain continuation lines) ≤ length lines
unfolding retain
length-retain-le continuation [] = omega arith
length-retain-le continuation (l ∷ ls) = elim (Bool-cases (removes continuation l)) [
  | inl gone ↦ rw gone (omega (arith, length-retain-le true ls))
  | inr kept ↦ rw kept (omega (arith, length-retain-le false ls))
]

removed-eq :
    (t : Text)
    → (scrub_control_lines t).1
      ≡ length (splitlines_keep t) - length (retain false (splitlines_keep t))
unfolding scrub_control_lines
removed-eq t =
    let lines = splitlines_keep t in
    omega (
      arith,
      length-map (line_at lines) (retained_control_line_indexes lines),
      ap length (lines-retained lines),
    )

-- The reported count is the number of lines that are gone.
pub scrub_count :
    (t : Text)
    → (scrub_control_lines t).1 + length (splitlines_keep (scrub_control_lines t).0)
      ≡ length (splitlines_keep t)
scrub_count t = omega (
  arith,
  removed-eq t,
  ap length (splitlines_keep-scrub t),
  length-retain-le false (splitlines_keep t),
)

-- Scrubbing a scrubbed log changes nothing and reports no removed line.
pub scrub_idem :
    (t : Text) → scrub_control_lines (scrub_control_lines t).0 ≡ ((scrub_control_lines t).0, 0)
scrub_idem t = ap₂ (λ a b. (a, b)) same none_gone
  where
    s : Text
    s = (scrub_control_lines t).0

    stays : retain false (splitlines_keep s) ≡ splitlines_keep s
    stays = retain-All (splitlines_keep s) (scrub-no_control t)

    same : (scrub_control_lines s).0 ≡ s
    same = scrub-eq-join s ∙ ap join (stays ∙ splitlines_keep-scrub t) ∙ sym (scrub-eq-join t)

    none_gone : (scrub_control_lines s).1 ≡ 0
    none_gone = omega (arith, removed-eq s, ap length stays)
