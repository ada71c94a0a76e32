-- ===== src/Lab/Dataset/Schedule.antt =====
-- The seeds of a schedule.
use airtrace.Prelude.{
  ℕ, ◌+◌, ◌≤◌, ◌<◌, ◌≡◌, subst, Bool, true, false, Option, some, List, [], ◌∷◌, All, take, zero,
  suc, filter_by, keep_if, All-filter_by, arith,
}
use airtrace.Lab.Dataset.{Split, dev, test, complete_class, same_split, seed_schedule}

-- Seeds grow along the schedule from `low` on, and those of the two splits lie apart.
abbrev pub Grows : ℕ → List (Split × ℕ) → Type 0
Grows low [] = Unit
Grows low ((s, seed) ∷ rest) = (low ≤ seed) × Grows (seed + 1) rest

abbrev pub InRange : ℕ → Split × ℕ → Type 0
InRange seed_base (dev, seed) = (seed_base ≤ seed) × (seed < seed_base + 4)
InRange seed_base (test, seed) = (seed_base + 100 ≤ seed) × (seed < seed_base + 108)

Grows-weaken : (low high : ℕ) (xs : List (Split × ℕ)) → low ≤ high → Grows high xs → Grows low xs
Grows-weaken low high [] h g = tt
Grows-weaken low high ((s, seed) ∷ rest) h g = (omega (arith, g.0), g.1)

Grows-take : (n low : ℕ) (xs : List (Split × ℕ)) → Grows low xs → Grows low (take n xs)
Grows-take zero low xs g = tt
Grows-take (suc n) low [] g = tt
Grows-take (suc n) low ((s, seed) ∷ rest) g = (g.0, Grows-take n (seed + 1) rest g.1)

Grows-keep_if :
    (b : Bool) (low : ℕ) (x : Split × ℕ) (xs : List (Split × ℕ))
    → low ≤ x.1
    → Grows (x.1 + 1) xs
    → Grows low (keep_if b x xs)
Grows-keep_if true low x xs h g = (h, g)
Grows-keep_if false low x xs h g = Grows-weaken low (x.1 + 1) xs (omega arith) g

Grows-filter_by :
    (p : Split × ℕ → Bool) (low : ℕ) (xs : List (Split × ℕ))
    → Grows low xs
    → Grows low (filter_by p xs)
Grows-filter_by p low [] g = tt
Grows-filter_by p low ((s, seed) ∷ rest) g =
    Grows-keep_if (p (s, seed)) low (s, seed) (filter_by p rest) g.0
      (Grows-filter_by p (seed + 1) rest g.1)

All-take : (P : Split × ℕ → Type 0) (n : ℕ) (xs : List (Split × ℕ)) → All P xs → All P (take n xs)
All-take P zero xs h = tt
All-take P (suc n) [] h = tt
All-take P (suc n) (x ∷ xs) h = (h.0, All-take P n xs h.1)

All-keep_if :
    (P : Split × ℕ → Type 0) (b : Bool) (x : Split × ℕ) (xs : List (Split × ℕ))
    → P x
    → All P xs
    → All P (keep_if b x xs)
All-keep_if P true x xs h k = (h, k)
All-keep_if P false x xs h k = k

All-kept :
    (P : Split × ℕ → Type 0) (p : Split × ℕ → Bool) (xs : List (Split × ℕ))
    → All P xs
    → All P (filter_by p xs)
All-kept P p [] h = tt
All-kept P p (x ∷ xs) h = All-keep_if P (p x) x (filter_by p xs) h.0 (All-kept P p xs h.1)

Grows-complete_class : (seed_base : ℕ) → Grows seed_base (complete_class seed_base)
unfolding complete_class
Grows-complete_class seed_base = ground arith

All-complete_class : (seed_base : ℕ) → All (InRange seed_base) (complete_class seed_base)
unfolding complete_class
All-complete_class seed_base = ground arith

-- The seeds of a schedule grow strictly, so that none is drawn twice; the dev seeds are the base and
-- the three behind it, and the test seeds lie from 100 to 107 behind it, apart from them; and each
-- entry is of the split that was asked for.
pub seed_schedule-Grows :
    (seed_base per_class : ℕ) (split : Option Split) (out : List (Split × ℕ))
    → seed_schedule seed_base per_class split ≡ some out
    → Grows seed_base out
      × All (InRange seed_base) out
      × All (λ (e : Split × ℕ). same_split split e.0 ≡ true) out
unfolding seed_schedule
seed_schedule-Grows seed_base per_class split out h =
    let kept =
      filter_by (λ (e : Split × ℕ). same_split split e.0)
        (take per_class (complete_class seed_base)) in
    let same : kept ≡ out = ground arith in
    subst
      (λ xs.
        Grows seed_base xs
        × All (InRange seed_base) xs
        × All (λ (e : Split × ℕ). same_split split e.0 ≡ true) xs)
      same
      (
        Grows-filter_by (λ e. same_split split e.0) seed_base
            (take per_class (complete_class seed_base))
            (Grows-take per_class seed_base (complete_class seed_base)
              (Grows-complete_class seed_base)),
        All-kept (InRange seed_base) (λ e. same_split split e.0)
            (take per_class (complete_class seed_base))
            (All-take (InRange seed_base) per_class (complete_class seed_base)
              (All-complete_class seed_base)),
        All-filter_by (λ e. same_split split e.0) (take per_class (complete_class seed_base)),
      )
