-- ===== src/Triage/Client/Retry/Bounds.antt =====
-- How many attempts the client makes, and which.
use airtrace.Prelude.{
  ℕ, zero, suc, ◌+◌, ◌≤◌, ◌<◌, ◌≡◌, ◌^◌, refl, sym, subst, Bool, true, false, Option, none, some,
  [], ◌∷◌, ◌==◌, length, length-append, arith, Bool-cases, inl, inr,
}
use airtrace.Text.Base.{Text}
use airtrace.Triage.Client.Retry.{
  Attempt, Sent, nothing_sent, error_of, is_retryable, noted, retried, may_retry, after_attempt,
  attempts_from, send,
}

module _ (redact : Text → Text) (post : ℕ → Attempt) where
  -- The loop that begins at `index` with the state `s` and `left + 1` attempts ends at the attempt `last`.
  abbrev StopsAt : ℕ → ℕ → Sent → Sent → Type 0
  StopsAt left index s out =
      (last : ℕ) × (index ≤ last)
      × (last ≤ index + left)
      × (length out.attempts + index ≡ length s.attempts + suc last)
      × (out.retry_count + index ≡ s.retry_count + last)
      × (length out.retry_errors + index ≡ length s.retry_errors + last)
      × (length out.slept + index ≡ length s.slept + last)
      × (out.error ≡ error_of (post last))
      × ((i : ℕ) → index ≤ i → i < last → is_retryable (post i) ≡ true)
      × (is_retryable (post last) ≡ true → last ≡ index + left)

  no_error : (a : Attempt) → error_of a ≡ none → is_retryable a ≡ false
  unfolding error_of is_retryable
  no_error (Attempt.response status body) h = ground arith
  no_error Attempt.timed_out h = cc
  no_error (Attempt.request_failed name) h = cc

  noted-attempts :
      (s : Sent) (index : ℕ)
      → length (noted redact s index (post index)).attempts ≡ suc (length s.attempts)
  unfolding noted
  noted-attempts s index = simp length-append (omega arith)

  -- The loop breaks off at `index`.
  stop-StopsAt :
      (left index : ℕ) (s : Sent)
      → (is_retryable (post index) ≡ true → left ≡ 0)
      → StopsAt left index s (noted redact s index (post index))
  unfolding noted
  stop-StopsAt left index s h = (
    index,
    omega arith,
    omega arith,
    omega (arith, noted-attempts s index),
    refl,
    refl,
    refl,
    refl,
    (λ i low high. absurd (omega arith)),
    (λ r. omega (arith, h r)),
  )

  -- The loop goes on behind `index`.
  retried-StopsAt :
      (left index : ℕ) (s out : Sent) (text : Text)
      → is_retryable (post index) ≡ true
      → StopsAt left (index + 1) (retried (noted redact s index (post index)) index text) out
      → StopsAt (suc left) index s out
  unfolding noted retried
  retried-StopsAt left index s out text r
        (last, low, high, tried, count, errors, slept, error, before, full) =
      (
        last,
        omega arith,
        omega arith,
        omega (arith, noted-attempts s index),
        omega arith,
        omega (arith, length-append s.retry_errors ((index, text) ∷ [])),
        omega (arith, length-append s.slept (2 ^ index ∷ [])),
        error,
        (λ i l h. elim (Bool-cases (i == index)) [
          | inl e ↦
              let same : index ≡ i = ground arith in
              subst (λ n. is_retryable (post n) ≡ true) same r
          | inr e ↦ before i (ground arith) h
        ]),
        (λ q. omega (arith, full q)),
      )

  after_attempt-StopsAt :
      (left index : ℕ) (s : Sent) (later : Sent → Sent) (again : Bool) (o : Option Text)
      → o ≡ error_of (post index)
      → (again ≡ false → is_retryable (post index) ≡ true → left ≡ 0)
      → ((text : Text)
          → again ≡ true
          → StopsAt left index s (later (retried (noted redact s index (post index)) index text)))
      → StopsAt left index s (after_attempt later again index (noted redact s index (post index)) o)
  unfolding after_attempt
  after_attempt-StopsAt left index s later again none e last more =
      stop-StopsAt left index s (λ r. absurd (ground (arith, no_error (post index) (sym e), r)))
  after_attempt-StopsAt left index s later false (some text) e last more =
      stop-StopsAt left index s (last refl)
  after_attempt-StopsAt left index s later true (some text) e last more = more text refl

  attempts_from-StopsAt :
      (left index : ℕ) (s : Sent)
      → StopsAt left index s (attempts_from redact post (suc left) index s)
  unfolding attempts_from may_retry
  attempts_from-StopsAt zero index s =
      after_attempt-StopsAt zero index s (attempts_from redact post zero (index + 1)) false
        (error_of (post index)) refl (λ e r. refl) (λ text e. absurd (ground arith))
  attempts_from-StopsAt (suc left) index s =
      after_attempt-StopsAt (suc left) index s (attempts_from redact post (suc left) (index + 1))
        (is_retryable (post index)) (error_of (post index)) refl (λ e r. absurd (ground arith))
        (λ text r.
          let t = retried (noted redact s index (post index)) index text in
          retried-StopsAt left index s (attempts_from redact post (suc left) (index + 1) t) text r
            (attempts_from-StopsAt left (index + 1) t))

-- The client makes `last + 1` attempts, at most `retries + 1`: each one before the last failed in a
-- retryable way and was counted, recorded and slept after once; the error it ends with is that of the
-- last attempt; and where the last attempt failed in a retryable way, all attempts are used up.
pub send_lem :
    (redact : Text → Text) (post : ℕ → Attempt) (retries : ℕ)
    → let out = send redact post retries in
      (last : ℕ) × (last ≤ retries)
      × (length out.attempts ≡ suc last)
      × (out.retry_count ≡ last)
      × (length out.retry_errors ≡ last)
      × (length out.slept ≡ last)
      × (out.error ≡ error_of (post last))
      × ((i : ℕ) → i < last → is_retryable (post i) ≡ true)
      × (is_retryable (post last) ≡ true → last ≡ retries)
unfolding send
send_lem redact post retries =
    let (last, low, high, tried, count, errors, slept, error, before, full) =
      attempts_from-StopsAt redact post retries 0 nothing_sent in
    (
      last,
      omega arith,
      omega (arith, tried),
      omega (arith, count),
      omega (arith, errors),
      omega (arith, slept),
      error,
      (λ i h. before i (omega arith) h),
      (λ r. omega (arith, full r)),
    )
