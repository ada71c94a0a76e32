-- ===== src/Text/Lines.antt =====
-- Laws of `splitlines_keep`: joining undoes it, and a list whose lines end as lines do is split back.
use airtrace.Prelude.{
  ℕ, ◌≡◌, refl, ap, sym, ◌∙◌, true, false, List, [], ◌∷◌, ◌++◌, inl, inr, arith, Bool-cases,
  append-nil,
}
use airtrace.Text.Base.{Text, join, starts_lf, ends_line, push, splitlines_keep}

-- `l` is a whole line with its line end, where the text `rest` follows.
abbrev pub IsLine : Text → Text → Type 0
IsLine [] rest = ⊥
IsLine (c ∷ []) rest = ends_line c rest ≡ true
IsLine (c ∷ d ∷ l) rest = (ends_line c (d ∷ l) ≡ false) × IsLine (d ∷ l) rest

-- Every line but the last is whole, and the last is one line.
abbrev pub WellSplit : List Text → Type 0
WellSplit [] = Unit
WellSplit (l ∷ []) = splitlines_keep l ≡ l ∷ []
WellSplit (l ∷ m ∷ ls) = IsLine l m × WellSplit (m ∷ ls)

join-push : (c : ℕ) (ls : List Text) → join (push c ls) ≡ c ∷ join ls
unfolding join push
join-push c [] = refl
join-push c (l ∷ ls) = refl

-- Splitting loses no character.
pub join-splitlines_keep : (t : Text) → join (splitlines_keep t) ≡ t
unfolding join splitlines_keep
join-splitlines_keep [] = refl
join-splitlines_keep (c ∷ cs) = elim (Bool-cases (ends_line c cs)) [
  | inl e ↦ rw e (ap (◌∷◌ c) (join-splitlines_keep cs))
  | inr e ↦ rw e (join-push c (splitlines_keep cs) ∙ ap (◌∷◌ c) (join-splitlines_keep cs))
]

-- A line end depends on the first character that follows only.
ends_line-head : (c d : ℕ) (l m : Text) → ends_line c (d ∷ l) ≡ ends_line c (d ∷ m)
unfolding ends_line
ends_line-head c d l m = refl

splitlines_keep-line :
    (l rest : Text) → IsLine l rest → splitlines_keep (l ++ rest) ≡ l ∷ splitlines_keep rest
unfolding splitlines_keep
splitlines_keep-line [] rest h = absurd h
splitlines_keep-line (c ∷ []) rest h = rw h
splitlines_keep-line (c ∷ d ∷ l) rest h =
    rw (ends_line-head c d (l ++ rest) l ∙ h.0) (rw (splitlines_keep-line (d ∷ l) rest h.1))

IsLine-head : (l m rest : Text) (d : ℕ) → IsLine l (d ∷ m) → IsLine l (d ∷ rest)
IsLine-head [] m rest d h = h
IsLine-head (c ∷ []) m rest d h = ends_line-head c d rest m ∙ h
IsLine-head (c ∷ e ∷ l) m rest d h = (h.0, IsLine-head (e ∷ l) m rest d h.1)

pub IsLine-nil : (l m : Text) → IsLine l m → IsLine l []
unfolding ends_line
IsLine-nil [] m h = h
IsLine-nil (c ∷ []) m h = ground arith
IsLine-nil (c ∷ e ∷ l) m h = (h.0, IsLine-nil (e ∷ l) m h.1)

pub IsLine-of-nil : (l m : Text) → starts_lf m ≡ false → IsLine l [] → IsLine l m
unfolding ends_line
IsLine-of-nil [] m e h = h
IsLine-of-nil (c ∷ []) m e h = ground arith
IsLine-of-nil (c ∷ d ∷ l) m e h = (h.0, IsLine-of-nil (d ∷ l) m e h.1)

pub IsLine-last : (l : Text) → IsLine l [] → splitlines_keep l ≡ l ∷ []
unfolding splitlines_keep
IsLine-last l h = ap splitlines_keep (sym (append-nil l)) ∙ splitlines_keep-line l [] h

-- No line is empty.
WellSplit-nonempty : (ls : List Text) → WellSplit ([] ∷ ls) → ⊥
unfolding splitlines_keep
WellSplit-nonempty [] h = cc
WellSplit-nonempty (m ∷ ls) h = h.0

-- Such a list comes back from its joined text.
pub splitlines_keep-join : (ls : List Text) → WellSplit ls → splitlines_keep (join ls) ≡ ls
unfolding join splitlines_keep
splitlines_keep-join [] h = refl
splitlines_keep-join (l ∷ []) h = ap splitlines_keep (append-nil l) ∙ h
splitlines_keep-join (l ∷ [] ∷ ls) h = absurd (WellSplit-nonempty ls h.1)
splitlines_keep-join (l ∷ (d ∷ m) ∷ ls) h =
    splitlines_keep-line l ((d ∷ m) ++ join ls) (IsLine-head l m (m ++ join ls) d h.0)
    ∙ ap (◌∷◌ l) (splitlines_keep-join ((d ∷ m) ∷ ls) h.1)

-- The first line begins as the text does.
splitlines_keep-cons :
    (c : ℕ) (cs : Text) → (l : Text) × (ls : List Text) × (splitlines_keep (c ∷ cs) ≡ (c ∷ l) ∷ ls)
unfolding splitlines_keep
splitlines_keep-cons c cs = elim (Bool-cases (ends_line c cs)) [
  | inl e ↦ ([], splitlines_keep cs, rw e)
  | inr e ↦ rw e (push_first c (splitlines_keep cs))
]
  where
    push_first :
        (c : ℕ) (ls : List Text) → (l : Text) × (ms : List Text) × (push c ls ≡ (c ∷ l) ∷ ms)
    push_first c [] = ([], [], refl)
    push_first c (l ∷ ls) = (l, ls, refl)

WellSplit-break :
    (c d : ℕ) (cs l : Text) (ls : List Text)
    → ends_line c (d ∷ cs) ≡ true
    → WellSplit ((d ∷ l) ∷ ls)
    → WellSplit ((c ∷ []) ∷ (d ∷ l) ∷ ls)
WellSplit-break c d cs l ls e h = (ends_line-head c d l cs ∙ e, h)

WellSplit-push :
    (c d : ℕ) (cs l : Text) (ls : List Text)
    → ends_line c (d ∷ cs) ≡ false
    → WellSplit ((d ∷ l) ∷ ls)
    → WellSplit ((c ∷ d ∷ l) ∷ ls)
unfolding splitlines_keep
WellSplit-push c d cs l [] e h = rw (ends_line-head c d l cs ∙ e) (ap (push c) h)
WellSplit-push c d cs l (m ∷ ls) e h = ((ends_line-head c d l cs ∙ e, h.0), h.1)

pub WellSplit-splitlines_keep : (t : Text) → WellSplit (splitlines_keep t)
unfolding splitlines_keep
WellSplit-splitlines_keep [] = tt
WellSplit-splitlines_keep (c ∷ []) = elim (Bool-cases (ends_line c [])) [
  | inl e ↦ rw e (rw e)
  | inr e ↦ rw e (rw e)
]
WellSplit-splitlines_keep (c ∷ d ∷ cs) =
    let (l, ls, first) = splitlines_keep-cons d cs in
    let below : WellSplit ((d ∷ l) ∷ ls) = rw first at (WellSplit-splitlines_keep (d ∷ cs)) in
    elim (Bool-cases (ends_line c (d ∷ cs))) [
      | inl e ↦ rw (e, first) (WellSplit-break c d cs l ls e below)
      | inr e ↦ rw (e, first) (WellSplit-push c d cs l ls e below)
    ]
