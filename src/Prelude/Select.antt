-- ===== src/Prelude/Select.antt =====
-- Selecting elements by a test and by indexes.
use Prim.Native.Nat.{ℕ, zero, suc, ◌+◌, ◌≤◌}
use mathlib.Core.Path.{◌≡◌, refl, ap, subst}
use mathlib.Core.Logic.{inl, inr}
use mathlib.Core.Bool.{Bool, true, false}
use mathlib.Core.List.{List, [], ◌∷◌, map}
use mathlib.Core.Option.{Option, none, some}
use native.Mathlib.Omega.{arith}
use airtrace.Prelude.Tests.{Bool-cases}
use airtrace.Prelude.Lists.{length, get_elem?, drop, All}

module _ {ℓ} {A : Type ℓ} where
  abbrev pub keep_if : Bool → A → List A → List A
  keep_if true x xs = x ∷ xs
  keep_if false x xs = xs

  abbrev pub filter_by : (A → Bool) → List A → List A
  filter_by p [] = []
  filter_by p (x ∷ xs) = keep_if (p x) x (filter_by p xs)

  abbrev pub cons_some : Option A → List A → List A
  cons_some none xs = xs
  cons_some (some x) xs = x ∷ xs

  -- `[xs[i] for i in indexes]`, where every index is in range.
  abbrev pub pick : List A → List ℕ → List A
  pick xs [] = []
  pick xs (i ∷ is) = cons_some (get_elem? xs i) (pick xs is)

-- `range(first, first + count)`
abbrev pub range : ℕ → ℕ → List ℕ
range first zero = []
range first (suc count) = first ∷ range (first + 1) count

module _ {ℓ} {A : Type ℓ} where
  pub drop-suc :
      (xs : List A) (i : ℕ) {x : A} {ys : List A} → drop i xs ≡ x ∷ ys → drop (suc i) xs ≡ ys
  drop-suc [] zero e = cc
  drop-suc [] (suc i) e = cc
  drop-suc (y ∷ xs) zero e = cc
  drop-suc (y ∷ xs) (suc i) e = drop-suc xs i e

  pub get_elem?-drop :
      (xs : List A) (i : ℕ) {x : A} {ys : List A} → drop i xs ≡ x ∷ ys → get_elem? xs i ≡ some x
  get_elem?-drop [] zero e = cc
  get_elem?-drop [] (suc i) e = cc
  get_elem?-drop (y ∷ xs) zero e = cc
  get_elem?-drop (y ∷ xs) (suc i) e = get_elem?-drop xs i e

  pick-range_from :
      (xs : List A) (i : ℕ) (ys : List A) → drop i xs ≡ ys → pick xs (range i (length ys)) ≡ ys
  pick-range_from xs i [] e = refl
  pick-range_from xs i (y ∷ ys) e =
      let same : suc i ≡ i + 1 = omega arith in
      let next : drop (i + 1) xs ≡ ys = subst (λ n. drop n xs ≡ ys) same (drop-suc xs i e) in
      rw (get_elem?-drop xs i e) (ap (◌∷◌ y) (pick-range_from xs (i + 1) ys next))

  -- Picking every index gives the list back.
  pub pick-range : (xs : List A) → pick xs (range 0 (length xs)) ≡ xs
  pick-range xs = pick-range_from xs 0 xs refl

module _ {ℓ κ} {A : Type ℓ} (P : A → Type κ) where
  abbrev Found : Option A → Type κ
  Found none = Unit
  Found (some x) = P x

  All-get_elem? : (xs : List A) (i : ℕ) → All P xs → Found (get_elem? xs i)
  All-get_elem? [] i h = tt
  All-get_elem? (x ∷ xs) zero h = h.0
  All-get_elem? (x ∷ xs) (suc i) h = All-get_elem? xs i h.1

  All-cons_some : (o : Option A) (xs : List A) → Found o → All P xs → All P (cons_some o xs)
  All-cons_some none xs f h = h
  All-cons_some (some x) xs f h = (f, h)

  pub All-pick : (xs : List A) (is : List ℕ) → All P xs → All P (pick xs is)
  All-pick xs [] h = tt
  All-pick xs (i ∷ is) h =
      All-cons_some (get_elem? xs i) (pick xs is) (All-get_elem? xs i h) (All-pick xs is h)

module _ {ℓ} {A : Type ℓ} (p : A → Bool) where
  pub All-filter_by : (xs : List A) → All (λ x. p x ≡ true) (filter_by p xs)
  All-filter_by [] = tt
  All-filter_by (x ∷ xs) = elim (Bool-cases (p x)) [
    | inl e ↦ rw e (e, All-filter_by xs)
    | inr e ↦ rw e (All-filter_by xs)
  ]

  pub length-filter_by-le : (xs : List A) → length (filter_by p xs) ≤ length xs
  length-filter_by-le [] = omega arith
  length-filter_by-le (x ∷ xs) = elim (Bool-cases (p x)) [
    | inl e ↦ rw e (omega (arith, length-filter_by-le xs))
    | inr e ↦ rw e (omega (arith, length-filter_by-le xs))
  ]

module _ {ℓ κ μ} {A : Type ℓ} {B : Type κ} (P : B → Type μ) (f : A → B) where
  pub All-map : (xs : List A) → All (λ x. P (f x)) xs → All P (map f xs)
  All-map [] h = tt
  All-map (x ∷ xs) h = (h.0, All-map xs h.1)

module _ {ℓ κ μ} {A : Type ℓ} (P : A → Type κ) (Q : A → Type μ) where
  pub All-weaken : ((x : A) → P x → Q x) → (xs : List A) → All P xs → All Q xs
  All-weaken f [] h = tt
  All-weaken f (x ∷ xs) h = (f x h.0, All-weaken f xs h.1)

pub length-map {ℓ κ} :
    {A : Type ℓ} {B : Type κ} (f : A → B) (xs : List A) → length (map f xs) ≡ length xs
length-map f [] = refl
length-map f (x ∷ xs) = ap suc (length-map f xs)
