-- ===== src/Triage/Client/Complete.antt =====
-- `ChatClient.complete` of triage/llm.py around the request loop: the context check, the key, and the
-- reading of the response envelope. The request payload and its hashes are not modelled.
pub mod Sound
mod Examples
use airtrace.Prelude.{
  ℕ, ◌*◌, Bool, true, false, not, Option, none, some, List, [], ◌∷◌, ◌&&◌, leb, if◌then◌else◌,
}
use airtrace.Text.Base.{Text, codes}
use airtrace.Json.{Json, null, int, object, array, Items, nil, item, Fields, end, get}
use airtrace.Triage.Arms.Types.{Tokens, truthy, or_null}
use airtrace.Triage.Client.Estimate.{Limits, check_context}
use airtrace.Triage.Client.Cost.{Prices, CostDetails, no_details, estimate_cost}
use airtrace.Triage.Client.Retry.{Attempt, Sent, nothing_sent, send}

-- The fields of `record` that the envelope fills.
pub record CallRecord : Type 0 where
  pub resolved_model : Json
  pub usage : Json
  pub cost : Option ℕ
  pub cost_details : CostDetails
  pub finish_reason : Json
  pub tokens : Tokens
  pub truncation_suspected : Bool

abbrev pub empty_record : CallRecord
empty_record = record {
  resolved_model = null;
  usage = null;
  cost = none;
  cost_details = no_details;
  finish_reason = null;
  tokens = record { prompt = none; completion = none; total = none };
  truncation_suspected = false;
}

-- The record, `message`, and whether no exception was raised.
pub record Envelope : Type 0 where
  pub filled : CallRecord
  pub message : Json
  pub accepted : Bool

abbrev pub rejected : CallRecord → Json → Envelope
rejected r message = record { filled = r; message = message; accepted = false }

-- A count that is an integer and not negative.
unfoldable pub count_of : Option Json → Option ℕ
count_of (some (int n)) = some n
count_of _ = none

-- `prompt_count >= 0.98 * context_length`, exact for every length below 2 ** 45.
unfoldable pub suspects_truncation : ℕ → Option ℕ → Bool
suspects_truncation context_length none = false
suspects_truncation context_length (some prompt) = leb (98 * context_length) (100 * prompt)

unfoldable pub read_tokens : ℕ → CallRecord → Json → Fields → Envelope
unfolding count_of
read_tokens context_length r message usage =
    let prompt = count_of (get usage (codes "prompt_tokens")) in
    record {
      filled = record r {
        tokens = record {
          prompt = prompt;
          completion = count_of (get usage (codes "completion_tokens"));
          total = count_of (get usage (codes "total_tokens"));
        };
        truncation_suspected = suspects_truncation context_length prompt;
      };
      message = message;
      accepted = true;
    }

-- `usage or {}`, which must be a dict.
unfoldable pub read_usage : ℕ → CallRecord → Json → Json → Envelope
read_usage context_length r message (object usage) = read_tokens context_length r message usage
read_usage context_length r message other =
    if truthy other then rejected r message else read_tokens context_length r message end

-- `choice["message"]`, which must be a dict.
unfoldable pub read_message : ℕ → CallRecord → Option Json → Json → Envelope
read_message context_length r none usage = rejected r null
read_message context_length r (some (object m)) usage = read_usage context_length r (object m) usage
read_message context_length r (some other) usage = rejected r other

-- `body["choices"][0]`, which must be a dict.
unfoldable pub read_choice : ℕ → CallRecord → Option Json → Json → Envelope
read_choice context_length r (some (array (item (object choice) more))) usage =
    read_message context_length
      (record r { finish_reason = or_null (get choice (codes "finish_reason")) })
      (get choice (codes "message")) usage
read_choice context_length r _ usage = rejected r null

unfoldable pub read_envelope : ℕ → Prices → Option Json → Envelope
read_envelope context_length prices (some (object body)) =
    let usage = or_null (get body (codes "usage")) in
    let estimated = estimate_cost prices usage in
    read_choice context_length
      (record empty_record {
        resolved_model = or_null (get body (codes "model"));
        usage = usage;
        cost = estimated.0;
        cost_details = estimated.1;
      })
      (get body (codes "choices")) usage
read_envelope context_length prices _ = rejected empty_record null

-- What `complete` returns: the completion, or a `ContextLimitError`.
pub record Completed : Type 0 where
  pub message : Json
  pub estimated_prompt_tokens : ℕ
  pub sent : Sent
  pub call : CallRecord
  pub error : Option Text

pub data Outcome : Type 0 where
  over_limit : Outcome
  completion : Completed → Outcome

-- The key is unset, not needed, or there.
pub data Key : Type 0 where
  unset not_needed : Key
  known : Text → Key

unfoldable pub error_unless : Bool → Option Text
error_unless true = none
error_unless false = some (codes "invalid Chat Completions response envelope")

-- `json.loads(raw)`; without a response there is no text.
unfoldable pub decoded : (Text → Option Json) → Option Text → Option Json
decoded loads none = none
decoded loads (some raw) = loads raw

module _ (loads : Text → Option Json) (limits : Limits) (prices : Prices) where
  -- Behind the loop.
  unfoldable pub finish : ℕ → Sent → Option Text → Completed
  unfolding error_unless
  finish estimated s (some error) = record {
    message = null;
    estimated_prompt_tokens = estimated;
    sent = s;
    call = empty_record;
    error = some error;
  }
  finish estimated s none =
      let e = read_envelope limits.context_length prices (decoded loads s.raw) in
      record {
        message = e.message;
        estimated_prompt_tokens = estimated;
        sent = s;
        call = e.filled;
        error = error_unless e.accepted;
      }

  unfoldable pub with_key : (Text → Text → Text) → (ℕ → Attempt) → ℕ → ℕ → Key → Completed
  with_key redact post retries estimated unset = record {
    message = null;
    estimated_prompt_tokens = estimated;
    sent = nothing_sent;
    call = empty_record;
    error = some (codes "configured API key environment variable is unset");
  }
  with_key redact post retries estimated not_needed =
      let s = send (redact []) post retries in finish estimated s s.error
  with_key redact post retries estimated (known key) =
      let s = send (redact key) post retries in finish estimated s s.error

  unfoldable pub complete :
      (Text → Text → Text) → (ℕ → Attempt) → ℕ → Key → List Json → Option (List Json) → Outcome
  complete redact post retries key messages tools = elim (check_context limits messages tools) [
    | none ↦ over_limit
    | some estimated ↦ completion (with_key redact post retries estimated key)
  ]
