-- ===== src/Triage/Arms/RawLogs/Head.antt =====
-- Sizes: the lines that `fitting` counts fit, at either end of the log.
use mathlib.Core.List.{reverse, reverse-append}
use airtrace.Prelude.{
  ℕ, zero, suc, ◌+◌, ◌-◌, ◌≤◌, ◌≡◌, refl, ap, sym, ◌∙◌, List, [], ◌∷◌, ◌++◌, ltb, length, sum_by,
  take, drop, length-append, length-drop, take-append-drop, take-append_self, arith, Bool-cases,
  inl, inr,
}
use airtrace.Text.Base.{Text, join}
use airtrace.Triage.Arms.RawLogs.{fitting}

abbrev pub chars : List Text → ℕ
chars ls = sum_by length ls

pub length-join : (ls : List Text) → length (join ls) ≡ chars ls
unfolding join
length-join [] = refl
length-join (l ∷ ls) = omega (arith, length-append l (join ls), length-join ls)

pub chars-append : (xs ys : List Text) → chars (xs ++ ys) ≡ chars xs + chars ys
chars-append [] ys = omega arith
chars-append (x ∷ xs) ys = omega (arith, chars-append xs ys)

pub fitting-le : (budget size : ℕ) (ls : List Text) → fitting budget size ls ≤ length ls
unfolding fitting
fitting-le budget size [] = omega arith
fitting-le budget size (l ∷ ls) = elim (Bool-cases (ltb budget (size + length l))) [
  | inl e ↦ rw e (omega arith)
  | inr e ↦ rw e (omega (arith, fitting-le budget (size + length l) ls))
]

pub chars-take-fitting :
    (budget size : ℕ) (ls : List Text)
    → size ≤ budget
    → size + chars (take (fitting budget size ls) ls) ≤ budget
unfolding fitting
chars-take-fitting budget size [] h = omega arith
chars-take-fitting budget size (l ∷ ls) h = elim (Bool-cases (ltb budget (size + length l))) [
  | inl e ↦ rw e (omega arith)
  | inr e ↦
      let room : size + length l ≤ budget = ground arith in
      rw e (omega (arith, chars-take-fitting budget (size + length l) ls room))
]

chars-reverse : (ls : List Text) → chars (reverse ls) ≡ chars ls
chars-reverse [] = refl
chars-reverse (l ∷ ls) = omega (
  arith,
  ap chars (reverse-append (l ∷ []) ls),
  chars-append (reverse ls) (reverse (l ∷ [])),
  chars-reverse ls,
)

pub length-reverse : (ls : List Text) → length (reverse ls) ≡ length ls
length-reverse [] = refl
length-reverse (l ∷ ls) = omega (
  arith,
  ap length (reverse-append (l ∷ []) ls),
  length-append (reverse ls) (reverse (l ∷ [])),
  length-reverse ls,
)

-- The last `count` lines, read from the end.
pub chars-take-reverse :
    (count : ℕ) (ls : List Text)
    → count ≤ length ls
    → chars (take count (reverse ls)) ≡ chars (drop (length ls - count) ls)
chars-take-reverse count ls h =
    let front = take (length ls - count) ls in
    let back = drop (length ls - count) ls in
    let whole : reverse ls ≡ reverse back ++ reverse front =
      ap reverse (sym (take-append-drop (length ls - count) ls)) ∙ reverse-append front back in
    let size : length (reverse back) ≡ count =
      omega (arith, length-reverse back, length-drop (length ls - count) ls) in
    ap (λ xs. chars (take count xs)) whole
    ∙ ap chars (take-append_self count (reverse back) (reverse front) size)
    ∙ chars-reverse back

drop-nil : (k : ℕ) → drop {A = Text} k [] ≡ []
drop-nil zero = refl
drop-nil (suc k) = refl

pub drop-drop : (m n : ℕ) (ls : List Text) → drop m (drop n ls) ≡ drop (n + m) ls
drop-drop m zero ls = ap (λ k. drop k ls) (omega arith)
drop-drop m (suc n) [] = drop-nil m ∙ sym (drop-nil (suc n + m))
drop-drop m (suc n) (l ∷ ls) =
    let e : suc (n + m) ≡ suc n + m = omega arith in drop-drop m n ls ∙ ap (λ k. drop k (l ∷ ls)) e
