-- ===== src/Triage/Metrics/Pairs.antt =====
-- The discordant counts of two groups.
use airtrace.Prelude.{
  ◌+◌, ◌≤◌, ◌≡◌, refl, Bool, not, List, [], ◌∷◌, ◌&&◌, length, count_by, bit, arith,
}
use airtrace.Triage.Metrics.{is_correct, Pair, compared, discordant_left, discordant_right}

split_bit : (a b : Bool) → bit a + bit (not a && b) ≡ bit b + bit (a && not b)
split_bit a b = ground arith

balance :
    (pairs : List Pair)
    → count_by (λ (p : Pair). is_correct p.0) pairs
        + count_by (λ (p : Pair). not (is_correct p.0) && is_correct p.1) pairs
      ≡ count_by (λ (p : Pair). is_correct p.1) pairs
        + count_by (λ (p : Pair). is_correct p.0 && not (is_correct p.1)) pairs
balance [] = refl
balance (p ∷ ps) = omega (arith, balance ps, split_bit (is_correct p.0) (is_correct p.1))

at_most_one : (a b : Bool) → bit (a && not b) + bit (not a && b) ≤ 1
at_most_one a b = ground arith

bounded :
    (pairs : List Pair)
    → count_by (λ (p : Pair). is_correct p.0 && not (is_correct p.1)) pairs
        + count_by (λ (p : Pair). not (is_correct p.0) && is_correct p.1) pairs
      ≤ length pairs
bounded [] = omega arith
bounded (p ∷ ps) = omega (arith, bounded ps, at_most_one (is_correct p.0) (is_correct p.1))

-- Over the compared pairs, the left group's correct rows and the right discordant ones are as many as
-- the right group's correct rows and the left discordant ones, so that the difference of the discordant
-- counts is that of the correct ones; and no pair is discordant on both sides.
pub discordant_balance :
    (pairs : List Pair)
    → (count_by (λ (p : Pair). is_correct p.0) (compared pairs) + discordant_right pairs
        ≡ count_by (λ (p : Pair). is_correct p.1) (compared pairs) + discordant_left pairs)
      × (discordant_left pairs + discordant_right pairs ≤ length (compared pairs))
unfolding discordant_left discordant_right
discordant_balance pairs = (balance (compared pairs), bounded (compared pairs))
