-- ===== src/Text/Number.antt =====
-- `str(n)` of a natural number.
use airtrace.Prelude.{
  ℕ, zero, suc, ◌+◌, ◌/◌, ◌%◌, ◌≤◌, ◌<◌, [], ◌∷◌, ◌++◌, ltb, arith, length, length-append,
  if◌then◌else◌,
}
use airtrace.Text.Base.{Text}

-- The digits, on fuel above the number.
digits_of : ℕ → ℕ → Text
digits_of zero n = []
digits_of (suc fuel) n =
    let front = digits_of fuel (n / 10) in
    if ltb n 10 then (b'0' + n) ∷ [] else front ++ (b'0' + n % 10) ∷ []

unfoldable pub show : ℕ → Text
unfolding digits_of
show n = digits_of (suc n) n

length-digits_of-le :
    (fuel more a b : ℕ)
    → a < fuel
    → b < more
    → a ≤ b
    → length (digits_of fuel a) ≤ length (digits_of more b)
unfolding digits_of
length-digits_of-le zero more a b h k l = absurd (omega arith)
length-digits_of-le (suc fuel) zero a b h k l = absurd (omega arith)
length-digits_of-le (suc fuel) (suc more) a b h k l = ground (
  arith,
  length-append (digits_of fuel (a / 10)) ((b'0' + a % 10) ∷ []),
  length-append (digits_of more (b / 10)) ((b'0' + b % 10) ∷ []),
  length-digits_of-le fuel more (a / 10) (b / 10),
)

-- A larger number is not printed shorter.
pub length-show-le : (a b : ℕ) → a ≤ b → length (show a) ≤ length (show b)
unfolding show
length-show-le a b h = length-digits_of-le (suc a) (suc b) a b (omega arith) (omega arith) h

length-digits_of-pos : (fuel n : ℕ) → n < fuel → 0 < length (digits_of fuel n)
unfolding digits_of
length-digits_of-pos zero n h = absurd (omega arith)
length-digits_of-pos (suc fuel) n h =
    ground (arith, length-append (digits_of fuel (n / 10)) ((b'0' + n % 10) ∷ []))

pub length-show-pos : (n : ℕ) → 0 < length (show n)
unfolding show
length-show-pos n = length-digits_of-pos (suc n) n (omega arith)
