-- ===== src/Triage/Citations/Counts.antt =====
-- The counts of a citation check.
use airtrace.Prelude.{
  ℕ, suc, ◌+◌, ◌≤◌, ◌≡◌, ◌↔◌, refl, Bool, true, not, List, [], ◌∷◌, ◌&&◌, ltb, ◌==◌, length,
  length-append, count_by, bit, arith,
}
use airtrace.Triage.Data.{View}
use airtrace.Triage.Schema.{Evidence, Diagnosis}
use airtrace.Triage.Citations.{matched, Tally, check_item, tally_item, tally_all, check}

-- Items that count: the model's own.
abbrev pub own : Evidence → Bool
own e = not e.auto

abbrev pub own_valid : View → Evidence → Bool
own_valid view e = not e.auto && matched view e.source e.ref e.quote

auto-own : (es : List Evidence) → count_by (λ e. e.auto) es + count_by own es ≡ length es
auto-own [] = omega arith
auto-own (e ∷ es) = let rest = auto-own es in ground arith

module _ (view : View) where
  -- One item is counted.
  abbrev Adds : Tally → Evidence → Tally → Type 0
  Adds t e u =
      (u.valid ≡ t.valid + bit (own_valid view e))
      × (u.valid + u.invalid ≡ t.valid + t.invalid + bit (own e))
      × (u.ambiguous ≤ t.ambiguous + bit (own e))
      × (length u.items ≡ suc (length t.items))

  tally_item-Adds : (t : Tally) (e : Evidence) → Adds t e (tally_item t (check_item view e))
  unfolding tally_item check_item
  tally_item-Adds t e = ground (arith, length-append t.items (check_item view e ∷ []))

  tally_all-lem :
      (t : Tally) (es : List Evidence)
      → let u = tally_all view t es in
        (u.valid ≡ t.valid + count_by (own_valid view) es)
        × (u.valid + u.invalid ≡ t.valid + t.invalid + count_by own es)
        × (u.ambiguous ≤ t.ambiguous + count_by own es)
        × (length u.items ≡ length t.items + length es)
  unfolding tally_all
  tally_all-lem t [] = (omega arith, omega arith, omega arith, omega arith)
  tally_all-lem t (e ∷ es) =
      let (a, b, c, d) = tally_item-Adds t e in
      let (f, g, h, i) = tally_all-lem (tally_item t (check_item view e)) es in
      (omega arith, omega arith, omega arith, omega arith)

all_valid_iff : (v i : ℕ) → (((i == 0) && ltb 0 v) ≡ true) ↔ (v ≡ v + i) × (1 ≤ v + i)
all_valid_iff v i = (λ h. (ground arith, ground arith), λ h. ground arith)

-- The counts of a check: one item for each citation; each citation that is not automatic is either
-- valid or invalid, and the others are counted apart; the valid ones are the matched ones; ambiguous
-- ones are among them; and `all_valid` says that there is one and that each of them matched.
pub check_counts :
    (d : Diagnosis) (view : View)
    → let r = check d view in
      (length r.items ≡ length d.evidence)
      × (r.auto + r.eligible ≡ length d.evidence)
      × (r.eligible ≡ r.valid + r.invalid)
      × (r.valid ≡ count_by (own_valid view) d.evidence)
      × (r.ambiguous ≤ r.eligible)
      × ((r.all_valid ≡ true) ↔ (r.valid ≡ r.eligible) × (1 ≤ r.eligible))
unfolding check
check_counts d view =
    let (valid, both, ambiguous, items) =
      tally_all-lem view (record { valid = 0; invalid = 0; ambiguous = 0; items = [] })
        d.evidence in
    (
      omega arith,
      omega (arith, auto-own d.evidence),
      refl,
      omega arith,
      omega arith,
      all_valid_iff (check d view).valid (check d view).invalid,
    )
