-- ===== src/Triage/Client/Retry.antt =====
-- The request loop of `ChatClient.complete` in triage/llm.py. The provider is the parameter `post`, the
-- outcome of each attempt; `redact` is `redact_response_body` with the configured key. Pacing by
-- `_limit` and the latency are not modelled.
pub mod Bounds
mod Examples
use airtrace.Prelude.{
  ℕ, zero, suc, ◌+◌, ◌^◌, Bool, true, false, not, Option, none, some, List, [], ◌∷◌, ◌++◌, ◌||◌,
  ◌==◌, ltb, leb, if◌then◌else◌,
}
use airtrace.Text.Base.{Text, codes}
use airtrace.Text.Number.{show}

-- One `self.http.post`: a response with its status and body, a timeout, or another request error with
-- the name of its class.
pub data Attempt : Type 0 where
  response : ℕ → Text → Attempt
  timed_out : Attempt
  request_failed : Text → Attempt

-- `attempt_record`
pub record AttemptRecord : Type 0 where
  pub index : ℕ
  pub status : Option ℕ
  pub raw_response_body : Option Text
  pub error : Option Text

-- The local variables `raw` and `error`, the fields of `record` that the loop fills, and the delays
-- that were slept.
pub record Sent : Type 0 where
  pub raw : Option Text
  pub error : Option Text
  pub raw_response_body : Option Text
  pub attempts : List AttemptRecord
  pub retry_errors : List (ℕ × Text)
  pub retry_count : ℕ
  pub slept : List ℕ

abbrev pub nothing_sent : Sent
nothing_sent = record {
  raw = none;
  error = none;
  raw_response_body = none;
  attempts = [];
  retry_errors = [];
  retry_count = 0;
  slept = [];
}

unfoldable pub is_success : ℕ → Bool
is_success status = not (ltb status 200 || leb 300 status)

-- `error` behind an attempt, and `retryable`.
unfoldable pub error_of : Attempt → Option Text
unfolding is_success
error_of (response status body) =
    if is_success status then none else some (codes "HTTP " ++ show status)
error_of timed_out = some (codes "request timed out")
error_of (request_failed name) = some (codes "request failed: " ++ name)

unfoldable pub is_retryable : Attempt → Bool
unfolding is_success
is_retryable (response status body) =
    if is_success status then false else status == 429 || leb 500 status
is_retryable timed_out = true
is_retryable (request_failed name) = false

unfoldable pub status_of : Attempt → Option ℕ
status_of (response status body) = some status
status_of _ = none

module _ (redact : Text → Text) where
  unfoldable pub body_of : Attempt → Option Text
  body_of (response status body) = some (redact body)
  body_of _ = none

  -- `raw` keeps its value where no response came.
  unfoldable pub raw_after : Option Text → Attempt → Option Text
  raw_after raw (response status body) = some (redact body)
  raw_after raw _ = raw

  unfoldable pub noted : Sent → ℕ → Attempt → Sent
  unfolding body_of raw_after
  noted s index a = record s {
    raw = raw_after s.raw a;
    error = error_of a;
    raw_response_body = body_of a;
    attempts =
        s.attempts
        ++ record {
          index = index;
          status = status_of a;
          raw_response_body = body_of a;
          error = error_of a;
        }
          ∷ [];
  }

-- The end of a round that goes on.
unfoldable pub retried : Sent → ℕ → Text → Sent
retried s index error = record s {
  retry_errors = s.retry_errors ++ (index, error) ∷ [];
  retry_count = s.retry_count + 1;
  slept = s.slept ++ 2 ^ index ∷ [];
}

-- `not (not retryable or attempt == config.retries)`, where `left` attempts follow.
unfoldable pub may_retry : ℕ → Bool → Bool
may_retry zero retryable = false
may_retry (suc left) retryable = retryable

-- The two `break`s.
unfoldable pub after_attempt : (Sent → Sent) → Bool → ℕ → Sent → Option Text → Sent
after_attempt later again index s none = s
after_attempt later again index s (some error) = if again then later (retried s index error) else s

module _ (redact : Text → Text) (post : ℕ → Attempt) where
  -- The attempts from `index` on, of which `left` are left.
  unfoldable pub attempts_from : ℕ → ℕ → Sent → Sent
  attempts_from zero index s = s
  attempts_from (suc left) index s =
      after_attempt (attempts_from left (index + 1)) (may_retry left (is_retryable (post index)))
        index (noted redact s index (post index)) (error_of (post index))

  -- `for attempt in range(config.retries + 1)`
  unfoldable pub send : ℕ → Sent
  send retries = attempts_from (suc retries) 0 nothing_sent
