-- ===== src/Lab/Window/Timestamp.antt =====
-- `daemon_timestamp_ns` of lab/window.py. The decimal digits of Unicode, which `\d` and `int` read,
-- are the parameter `decimal`: the value of a digit character.
use airtrace.Prelude.{
  ℕ, ◌+◌, ◌-◌, ◌*◌, ◌^◌, Bool, false, Option, none, some, List, [], ◌∷◌, ◌==◌, ◌&&◌, ◌||◌, leb,
  length, if◌then◌else◌,
}
use airtrace.Text.Base.{Text, is_space}

abbrev pub billion : ℕ
billion = 1000000000

-- `\s*`
skip_blanks : Text → Text
skip_blanks [] = []
skip_blanks (c ∷ cs) = let rest = skip_blanks cs in if is_space c then rest else c ∷ cs

-- `int(digits)`
int_of : ℕ → List ℕ → ℕ
int_of n [] = n
int_of n (d ∷ ds) = int_of (n * 10 + d) ds

-- The lookahead `(?=[:\s])`.
stops : Text → Bool
stops [] = false
stops (c ∷ cs) = c == b':' || is_space c

module _ (decimal : ℕ → Option ℕ) where
  -- The longest run of digits, as their values, and what follows it.
  digit_run : Text → List ℕ × Text
  digit_run [] = ([], [])
  digit_run (c ∷ cs) =
      let (ds, rest) = digit_run cs in
      elim (decimal c) [ none ↦ ([], c ∷ cs) | some d ↦ (d ∷ ds, rest) ]

  -- After the seconds: a fraction of one to nine digits, or none.
  after_seconds : ℕ → Text → Option ℕ
  unfolding digit_run int_of stops
  after_seconds seconds [] = none
  after_seconds seconds (c ∷ cs) =
      let (fraction, rest) = digit_run cs in
      if c == b'.'
      then (if leb 1 (length fraction) && leb (length fraction) 9 && stops rest
          then some (seconds * billion + int_of 0 fraction * 10 ^ (9 - length fraction))
          else none)
      else if stops (c ∷ cs)
      then some (seconds * billion)
      else none

  unfoldable pub daemon_timestamp_ns : Text → Option ℕ
  unfolding skip_blanks after_seconds
  daemon_timestamp_ns line =
      let (seconds, rest) = digit_run (skip_blanks line) in
      if leb 9 (length seconds) then after_seconds (int_of 0 seconds) rest else none
