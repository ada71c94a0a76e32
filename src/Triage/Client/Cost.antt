-- ===== src/Triage/Client/Cost.antt =====
-- `estimate_cost` of triage/llm.py. A price is a multiple of a common unit, and a cost is the exact
-- numerator over a million of that unit, where the source computes in floating point.
pub mod Usage
use airtrace.Prelude.{
  ℕ, ◌+◌, ◌-◌, ◌*◌, Bool, true, false, not, Option, none, some, List, [], ◌∷◌, ◌&&◌, ◌||◌, ltb, leb,
  ◌==◌, if◌then◌else◌,
}
use airtrace.Text.Base.{Text, codes}
use airtrace.Json.{Json, null, int, object, Fields, end, get}
use airtrace.Triage.Arms.Types.{truthy, or_null}

pub record Prices : Type 0 where
  pub input : Option ℕ
  pub output : Option ℕ
  pub cached_input : Option ℕ

pub data CostStatus : Type 0 where
  missing_usage invalid_cached_usage missing_price estimated_from_returned_usage : CostStatus

-- The dict `details`.
pub record CostDetails : Type 0 where
  pub status : CostStatus
  pub prompt_tokens : Json
  pub completion_tokens : Json
  pub cached_tokens : Json
  pub cached_tokens_reported : Bool

abbrev pub no_details : CostDetails
no_details = record {
  status = missing_usage;
  prompt_tokens = null;
  completion_tokens = null;
  cached_tokens = null;
  cached_tokens_reported = false;
}

unfoldable pub is_some : Option Json → Bool
is_some none = false
is_some (some j) = true

-- `prompt_details.get("cached_tokens", 0)`
unfoldable pub or_zero : Option Json → Json
or_zero none = int 0
or_zero (some j) = j

-- The sum behind the checks of the prices.
unfoldable pub cost_with : Option ℕ → Option ℕ → Option ℕ → ℕ → ℕ → ℕ → Option ℕ
cost_with (some i) (some o) (some c) prompt completion cached =
    some ((prompt - cached) * i + completion * o + cached * c)
cost_with (some i) (some o) none prompt completion cached =
    if cached == 0 then some ((prompt - cached) * i + completion * o) else none
cost_with _ _ _ prompt completion cached = none

unfoldable pub cost_of : Prices → ℕ → ℕ → ℕ → Option ℕ
unfolding cost_with
cost_of prices = cost_with prices.input prices.output prices.cached_input

unfoldable pub priced : CostDetails → Option ℕ → Option ℕ × CostDetails
priced details none = (none, record details { status = missing_price })
priced details (some cost) = (some cost, record details { status = estimated_from_returned_usage })

-- Behind `prompt_details`: its cached count must be an integer in [0, prompt].
unfoldable pub with_cached : Prices → CostDetails → ℕ → ℕ → Json → Option ℕ × CostDetails
with_cached prices details prompt completion (int cached) =
    if leb cached prompt
    then priced details (cost_of prices prompt completion cached)
    else (none, record details { status = invalid_cached_usage })
with_cached prices details prompt completion other =
    (none, record details { status = invalid_cached_usage })

-- `usage.get("prompt_tokens_details") or {}`
unfoldable pub details_or_empty : Json → Json
details_or_empty j = if truthy j then j else object end

unfoldable pub with_details : Prices → CostDetails → ℕ → ℕ → Json → Option ℕ × CostDetails
unfolding is_some or_zero
with_details prices details prompt completion (object fields) =
    let cached = get fields (codes "cached_tokens") in
    with_cached prices
      (record details { cached_tokens = or_zero cached; cached_tokens_reported = is_some cached })
      prompt completion (or_zero cached)
with_details prices details prompt completion other =
    (none, record details { status = invalid_cached_usage })

-- Both counts must be integers that are not negative.
unfoldable pub with_counts : Prices → CostDetails → Json → Json → Json → Option ℕ × CostDetails
with_counts prices details (int prompt) (int completion) prompt_details =
    with_details prices details prompt completion (details_or_empty prompt_details)
with_counts prices details _ _ prompt_details = (none, details)

unfoldable pub estimate_cost : Prices → Json → Option ℕ × CostDetails
estimate_cost prices (object usage) =
    let prompt = or_null (get usage (codes "prompt_tokens")) in
    let completion = or_null (get usage (codes "completion_tokens")) in
    with_counts prices
      (record no_details { prompt_tokens = prompt; completion_tokens = completion }) prompt
      completion (or_null (get usage (codes "prompt_tokens_details")))
estimate_cost prices other = (none, no_details)
