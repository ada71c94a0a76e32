-- ===== src/Triage/Client/Retry/Examples.antt =====
-- A client that is refused twice and then answered, and the theorem at it.
use airtrace.Prelude.{ℕ, zero, suc, ◌≤◌, ◌<◌, ◌≡◌, refl, true, none, some, [], ◌∷◌, length}
use airtrace.Text.Base.{Text, codes}
use airtrace.Triage.Client.Retry.{
  Attempt, response, timed_out, is_success, error_of, is_retryable, status_of, body_of, raw_after,
  noted, retried, may_retry, after_attempt, attempts_from, send,
}
use airtrace.Triage.Client.Retry.Bounds.{send_lem}

abbrev as_it_is : Text → Text
as_it_is t = t

abbrev provider : ℕ → Attempt
provider zero = response 429 (codes "busy")
provider (suc zero) = timed_out
provider (suc (suc n)) = response 200 (codes "{}")

runs : Unit {0}
unfolding send attempts_from after_attempt may_retry retried noted raw_after body_of status_of
    is_retryable error_of is_success
runs = tt

third_answers :
    ((send as_it_is provider 5).slept ≡ 1 ∷ 2 ∷ [])
    × ((send as_it_is provider 5).raw ≡ some (codes "{}"))
    × ((send as_it_is provider 5).error ≡ none)
unfolding runs
third_answers = (refl, refl, refl)

send_lem_example :
    let out = send as_it_is provider 5 in
    (last : ℕ) × (last ≤ 5)
    × (length out.attempts ≡ suc last)
    × (out.retry_count ≡ last)
    × (length out.retry_errors ≡ last)
    × (length out.slept ≡ last)
    × (out.error ≡ error_of (provider last))
    × ((i : ℕ) → i < last → is_retryable (provider i) ≡ true)
    × (is_retryable (provider last) ≡ true → last ≡ 5)
send_lem_example = send_lem as_it_is provider 5
