-- ===== src/Triage/Client/Complete/Examples.antt =====
-- A response of a model with usage and prices, and the theorems at it.
use airtrace.Prelude.{ℕ, ◌≡◌, refl, Option, none, some, []}
use airtrace.Text.Base.{Text, codes}
use airtrace.Text.Order.{text_eq}
use airtrace.Json.{Json, int, object, array, nil, item, Fields, end, field, get, string}
use airtrace.Triage.Arms.Types.{truthy}
use airtrace.Triage.Client.Estimate.{Limits}
use airtrace.Triage.Client.Cost.{
  Prices, is_some, or_zero, cost_with, cost_of, priced, with_cached, details_or_empty, with_details,
  with_counts, estimate_cost,
}
use airtrace.Triage.Client.Cost.Usage.{Known, estimate_cost-Known}
use airtrace.Triage.Client.Retry.{
  Attempt, response, is_success, error_of, is_retryable, status_of, body_of, raw_after, noted,
  may_retry, after_attempt, attempts_from, send,
}
use airtrace.Triage.Client.Complete.{
  count_of, suspects_truncation, read_tokens, read_usage, read_message, read_choice, read_envelope,
  error_unless, decoded, finish, known, with_key,
}
use airtrace.Triage.Client.Complete.Sound.{IsRead, with_key-IsRead}

abbrev used : Fields
used = field (codes "prompt_tokens") (int 100) (
    field (codes "completion_tokens") (int 20) (
      field (codes "prompt_tokens_details") (object (field (codes "cached_tokens") (int 40) end))
        end))

abbrev body : Fields
body =
    field (codes "choices")
      (array (
        item
          (object (field (codes "message") (object (field (codes "content") (string []) end)) end))
          nil))
      (field (codes "usage") (object used) end)

abbrev decode : Text → Option Json
decode t = some (object body)

abbrev limited : Limits
limited = record { max_tokens = 10; context_length = 1000 }

abbrev rates : Prices
rates = record { input = some 2; output = some 3; cached_input = some 1 }

abbrev unredacted : Text → Text → Text
unredacted key t = t

abbrev provider : ℕ → Attempt
provider n = response 200 (codes "{}")

runs : Unit {0}
unfolding with_key finish error_unless decoded read_envelope read_choice read_message read_usage
    read_tokens count_of suspects_truncation truthy get text_eq estimate_cost with_counts
    with_details details_or_empty with_cached priced cost_of cost_with is_some or_zero send
    attempts_from after_attempt may_retry noted raw_after body_of status_of is_retryable error_of
    is_success
runs = tt

accepted :
    (with_key decode limited rates unredacted provider 2 500 (known (codes "k"))).error ≡ none
unfolding runs
accepted = refl

with_key-IsRead_example :
    let c = with_key decode limited rates unredacted provider 2 500 (known (codes "k")) in
    (c.sent.error ≡ none) × IsRead decode c.sent.raw c.message
with_key-IsRead_example =
    with_key-IsRead decode limited rates unredacted provider 2 500 (known (codes "k")) accepted

is_priced : (estimate_cost rates (object used)).0 ≡ some 220
unfolding runs
is_priced = refl

estimate_cost-Known_example : Known rates 220 (estimate_cost rates (object used)).1
estimate_cost-Known_example = estimate_cost-Known rates (object used) 220 is_priced
