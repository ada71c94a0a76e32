-- ===== src/Triage/Arms/Types.antt =====
-- The values that the comparison arms of triage/arms.py pass around.
use airtrace.Prelude.{ℕ, Bool, true, false, not, Option, none, some, List, [], ◌∷◌, ◌||◌, zero, suc}
use airtrace.Text.Base.{Text, codes}
use airtrace.Text.Order.{text_eq}
use airtrace.Json.{
  Json, null, bool, int, number, string, array, object, nil, item, Fields, end, field,
}
use airtrace.Triage.Schema.{Diagnosis}

-- The two model arms; the rule arm makes no request.
pub data Arm : Type 0 where
  llm_raw llm_tools : Arm

-- Token counts by kind; `none` is a count that the provider did not report.
pub record Tokens : Type 0 where
  pub prompt : Option ℕ
  pub completion : Option ℕ
  pub total : Option ℕ

-- What the arms read of a completion: the answer is the message, or the error of the request.
pub data Answer : Type 0 where
  message : Fields → Answer
  failed : Text → Answer

pub record Completion : Type 0 where
  pub answer : Answer
  pub estimated_prompt_tokens : ℕ
  pub finish_reason : Option Text
  pub truncation_suspected : Bool
  pub pricing : Json
  pub cost : Option ℕ
  pub tokens : Tokens

-- A `ContextLimitError` carries its text.
pub data Reply : Type 0 where
  context_limit : Text → Reply
  completed : Completion → Reply

pub data Outcome : Type 0 where
  diagnosed truncated context_rejected error schema_failure : Outcome

-- What happened to a completion, as its trace record says.
pub data Stage : Type 0 where
  unchecked was_truncated tool_calls diagnosis : Stage
  invalid : Text → Stage

pub record TraceEntry : Type 0 where
  pub completion : Completion
  pub stage : Stage

-- `preflight`
pub record Plan : Type 0 where
  pub initial : ℕ
  pub largest : ℕ
  pub tool_history_budget : ℕ

pub record ArmResult : Type 0 where
  pub diagnosis : Diagnosis
  pub schema_failure : Bool
  pub tokens : Tokens
  pub error : Option Text
  pub cost : Option ℕ
  pub pricing : Json
  pub outcome : Outcome
  pub finish_reason : Option Text
  pub truncation_suspected : Bool
  pub rejected_estimate : Option ℕ
  pub omitted : List (ℕ × ℕ)

-- `bool(value)`: of the numbers that are not naturals, only the zeros of a float are false.
unfoldable pub truthy : Json → Bool
truthy null = false
truthy (bool b) = b
truthy (int zero) = false
truthy (int (suc n)) = true
truthy (number t) = not (text_eq t (codes "0.0") || text_eq t (codes "-0.0"))
truthy (string []) = false
truthy (string (c ∷ cs)) = true
truthy (array nil) = false
truthy (array (item j js)) = true
truthy (object end) = false
truthy (object (field k v fs)) = true

-- `value.get(key)`, with `None` for a missing key.
abbrev pub or_null : Option Json → Json
or_null none = null
or_null (some j) = j
