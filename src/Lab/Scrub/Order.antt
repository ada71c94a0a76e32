-- ===== src/Lab/Scrub/Order.antt =====
-- The retained indexes are in range and in order, and the retained lines are a filter of the lines.
use airtrace.Prelude.{
  ℕ, suc, ◌+◌, ◌≤◌, ◌<◌, ◌≡◌, Bool, true, false, List, [], ◌∷◌, inl, inr, arith, Bool-cases, length,
  if◌then◌else◌,
}
use airtrace.Text.Base.{Text}
use airtrace.Lab.Scrub.{removes, retained_from, retained_control_line_indexes}

-- Indexes that grow strictly from `low` on and stay below `high`.
abbrev pub Ascends : ℕ → ℕ → List ℕ → Type 0
Ascends low high [] = Unit
Ascends low high (i ∷ is) = (low ≤ i) × (i < high) × Ascends (i + 1) high is

Ascends-weaken :
    (low low' high : ℕ) (is : List ℕ) → low ≤ low' → Ascends low' high is → Ascends low high is
Ascends-weaken low low' high [] h a = tt
Ascends-weaken low low' high (i ∷ is) h a = (omega arith, a.1, a.2)

retained_from-Ascends :
    (i : ℕ) (continuation : Bool) (lines : List Text)
    → Ascends i (i + length lines) (retained_from i continuation lines)
unfolding retained_from
retained_from-Ascends i continuation [] = tt
retained_from-Ascends i continuation (line ∷ lines) =
    let e : (i + 1) + length lines ≡ i + suc (length lines) = omega arith in
    elim (Bool-cases (removes continuation line)) [
      | inl gone ↦ rw gone (
          rw e at
            (Ascends-weaken i (i + 1) _ _ (omega arith) (retained_from-Ascends (i + 1) true lines)))
      | inr kept ↦
          rw kept (omega arith, omega arith, rw e at (retained_from-Ascends (i + 1) false lines))
    ]

-- The retained indexes are valid indexes of the list, each larger than the one before: retained
-- lines keep their order and none is repeated.
pub retained_control_line_indexes-Ascends :
    (lines : List Text) → Ascends 0 (length lines) (retained_control_line_indexes lines)
unfolding retained_control_line_indexes
retained_control_line_indexes-Ascends lines =
    let e : 0 + length lines ≡ length lines = omega arith in
    rw e at (retained_from-Ascends 0 false lines)

-- The retained lines themselves.
unfoldable pub retain : Bool → List Text → List Text
retain continuation [] = []
retain continuation (line ∷ lines) =
    let rest = retain true lines in
    let kept = line ∷ retain false lines in if removes continuation line then rest else kept
