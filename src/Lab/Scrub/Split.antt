-- ===== src/Lab/Scrub/Split.antt =====
-- The retained lines are the lines of the scrubbed text: removing whole lines joins no two others.
use airtrace.Prelude.{
  drop-suc, ℕ, zero, suc, ◌+◌, ◌≡◌, refl, ap, ap₂, ◌∙◌, Bool, true, false, List, [], ◌∷◌, inl, inr,
  arith, Bool-cases, map, drop, ◌==◌, ==_iff, subst,
}
use airtrace.Text.Base.{
  Text, is_space, is_blank, join, starts_lf, is_break, ends_line, splitlines_keep,
}
use airtrace.Text.Lines.{
  IsLine, WellSplit, IsLine-nil, IsLine-of-nil, IsLine-last, splitlines_keep-join,
  WellSplit-splitlines_keep,
}
use airtrace.Lab.Scrub.{
  control_line, removes, retained_from, retained_control_line_indexes, line_at, scrub_control_lines,
}
use airtrace.Lab.Scrub.Order.{retain}

line_at-drop :
    (all : List Text) (i : ℕ) (line : Text) (lines : List Text)
    → drop i all ≡ line ∷ lines
    → line_at all i ≡ line
unfolding line_at
line_at-drop [] zero line lines e = cc
line_at-drop [] (suc i) line lines e = cc
line_at-drop (l ∷ ls) zero line lines e = cc
line_at-drop (l ∷ ls) (suc i) line lines e = line_at-drop ls i line lines e

-- The index list and the list of retained lines are two views of one loop.
retained_from-retain :
    (i : ℕ) (continuation : Bool) (lines : List Text) (all : List Text)
    → drop i all ≡ lines
    → map (line_at all) (retained_from i continuation lines) ≡ retain continuation lines
unfolding retained_from retain
retained_from-retain i continuation [] all e = refl
retained_from-retain i continuation (line ∷ lines) all e =
    let next : drop (i + 1) all ≡ lines =
      let same : suc i ≡ i + 1 = omega arith in rw same at (drop-suc all i e) in
    elim (Bool-cases (removes continuation line)) [
      | inl gone ↦ rw gone (retained_from-retain (i + 1) true lines all next)
      | inr kept ↦ rw kept (
          ap₂ ◌∷◌ (line_at-drop all i line lines e)
            (retained_from-retain (i + 1) false lines all next))
    ]

pub lines-retained :
    (lines : List Text)
    → map (line_at lines) (retained_control_line_indexes lines) ≡ retain false lines
unfolding retained_control_line_indexes
lines-retained lines = retained_from-retain 0 false lines lines refl

-- A line that begins with a line feed is that line feed alone.
lf_is_break : (l : Text) → ends_line 10 l ≡ true
unfolding ends_line is_break
lf_is_break l = refl

lf_alone : (l : Text) (ls : List Text) → WellSplit ((10 ∷ l) ∷ ls) → l ≡ []
unfolding splitlines_keep
lf_alone [] ls w = refl
lf_alone (d ∷ l) [] w = cc (lf_is_break (d ∷ l), w)
lf_alone (d ∷ l) (m ∷ ls) w = cc (lf_is_break (d ∷ l), w.0.0)

-- So it is blank, and goes when it follows an echo.
blank_removed : removes true (10 ∷ []) ≡ true
unfolding removes control_line is_blank is_space
blank_removed = refl

kept_starts :
    (m : Text) (ls : List Text) → WellSplit (m ∷ ls) → removes true m ≡ false → starts_lf m ≡ false
unfolding starts_lf
kept_starts [] ls w h = refl
kept_starts (c ∷ l) ls w h = elim (Bool-cases (c == 10)) [
  | inr other ↦ other
  | inl lf ↦
      let e : c ≡ 10 = (==_iff c 10).0 lf in
      let w' : WellSplit ((10 ∷ l) ∷ ls) = subst (λ x. WellSplit ((x ∷ l) ∷ ls)) e w in
      cc (h, e, lf_alone l ls w', blank_removed)
]

WellSplit-tail : (l : Text) (ls : List Text) → WellSplit (l ∷ ls) → WellSplit ls
WellSplit-tail l [] w = tt
WellSplit-tail l (m ∷ ls) w = w.1

-- `l` is the last retained line: behind it either nothing was removed yet, or an echo was.
mutual
  unfolding retain

  after_kept : (l : Text) (ls : List Text) → WellSplit (l ∷ ls) → WellSplit (l ∷ retain false ls)
  after_kept l [] w = w
  after_kept l (m ∷ ls) w = elim (Bool-cases (removes false m)) [
    | inl gone ↦ rw gone (after_removed l ls (IsLine-nil l m w.0) (WellSplit-tail m ls w.1))
    | inr kept ↦ rw kept (w.0, after_kept m ls w.1)
  ]

  after_removed :
      (l : Text) (ls : List Text) → IsLine l [] → WellSplit ls → WellSplit (l ∷ retain true ls)
  after_removed l [] whole w = IsLine-last l whole
  after_removed l (m ∷ ls) whole w = elim (Bool-cases (removes true m)) [
    | inl gone ↦ rw gone (after_removed l ls whole (WellSplit-tail m ls w))
    | inr kept ↦ rw kept (IsLine-of-nil l m (kept_starts m ls w kept) whole, after_kept m ls w)
  ]

-- The text before the first line acts as one more whole line.
WellSplit-lf : (ls : List Text) → WellSplit ls → WellSplit ((10 ∷ []) ∷ ls)
unfolding splitlines_keep
WellSplit-lf [] w = rw lf_is_break
WellSplit-lf (m ∷ ls) w = (lf_is_break m, w)

pub WellSplit-retain : (ls : List Text) → WellSplit ls → WellSplit (retain false ls)
WellSplit-retain ls w = WellSplit-tail (10 ∷ []) _ (after_kept (10 ∷ []) ls (WellSplit-lf ls w))

-- The scrubbed text is the retained lines, one after another.
pub scrub-eq-join : (t : Text) → (scrub_control_lines t).0 ≡ join (retain false (splitlines_keep t))
unfolding scrub_control_lines
scrub-eq-join t = ap join (lines-retained (splitlines_keep t))

-- Splitting the scrubbed text gives the retained lines back.
pub splitlines_keep-scrub :
    (t : Text) → splitlines_keep (scrub_control_lines t).0 ≡ retain false (splitlines_keep t)
splitlines_keep-scrub t =
    ap splitlines_keep (scrub-eq-join t)
    ∙ splitlines_keep-join _ (WellSplit-retain _ (WellSplit-splitlines_keep t))
