-- ===== src/Triage/Arms/Messages.antt =====
-- `_tool_results` and `_parse_diagnosis` of triage/arms.py.
use airtrace.Prelude.{
  Bool, true, false, Option, none, some, List, [], ◌∷◌, ◌||◌, ltb, length, take, if◌then◌else◌,
}
use airtrace.Text.Base.{Text, codes}
use airtrace.Text.Order.{text_eq}
use airtrace.Json.{
  Json, string, array, object, Items, nil, item, Fields, end, field, get, sorted, dumps,
}
use airtrace.Triage.Data.{frame, log}
use airtrace.Triage.Schema.{Evidence, Diagnosis}
use airtrace.Triage.Arms.Types.{Arm, llm_raw, llm_tools, truthy, or_null}

-- A value, or the text of the exception that ends the attempt.
pub data Checked {ℓ} (A : Type ℓ) : Type ℓ where
  valid : A → Checked A
  error : Text → Checked A

-- What the attempt to answer one call raises: the messages are Python's own.
pub data Fault : Type 0 where
  no_function function_not_a_dict no_arguments no_name : Fault
  undecodable : Json → Fault

-- The code outside of this repository, and the other components: the decoder of JSON text, Python's
-- message for a fault, `Toolbox.call`, and the validation of a diagnosis by pydantic, whose refusal
-- comes as the JSON text of its errors.
pub record Tooling : Type 0 where
  pub loads : Text → Option Json
  pub fault_text : Fault → Text
  pub call_tool : Json → Fields → Json
  pub validate : Text → Checked Diagnosis

unfoldable pub list_of : Items → List Json
list_of nil = []
list_of (item j js) = j ∷ list_of js

error_value : Text → Json
error_value text = object (field (codes "error") (string (take 500 text)) end)

-- A round of tools: the assistant's message, and the id and content of each response.
pub record ToolRound : Type 0 where
  pub assistant : Json
  pub responses : List (Text × Text)

unfoldable pub tool_message : Text → Text → Json
tool_message id content = object (
    field (codes "role") (string (codes "tool"))
      (field (codes "tool_call_id") (string id) (field (codes "content") (string content) end)))

mem_text : Text → List Text → Bool
mem_text t [] = false
mem_text t (s ∷ ss) = text_eq s t || mem_text t ss

-- `evidence.auto = False`
unfoldable pub not_automatic : List Evidence → List Evidence
not_automatic [] = []
not_automatic (e ∷ es) = record e { auto = false } ∷ not_automatic es

unfoldable pub cites_frame : List Evidence → Bool
cites_frame [] = false
cites_frame (e ∷ es) = let rest = cites_frame es in elim e.source [ frame ↦ true | log s ↦ rest ]

-- The last check of `_parse_diagnosis`: `llm_raw` has seen no frames.
unfoldable pub allowed_citations : Arm → Diagnosis → Checked Diagnosis
allowed_citations llm_tools d = valid d
allowed_citations llm_raw d =
    if cites_frame d.evidence
    then error (codes "llm_raw must cite log lines; frame citations are not allowed")
    else valid d

-- The assistant's turn as it is sent back.
assistant_message : Fields → Json → Json
assistant_message message calls = object (
    field (codes "role") (string (codes "assistant")) (
      field (codes "content") (or_null (get message (codes "content")))
        (field (codes "tool_calls") calls end)))

module _ (tooling : Tooling) where
  -- `json.loads(function["arguments"])`, its type check, and the tool itself.
  answer_arguments : Json → Json → Json
  unfolding error_value
  answer_arguments name (string arguments) = elim (tooling.loads arguments) [
    | some (object fields) ↦ tooling.call_tool name fields
    | some other ↦ error_value (codes "tool arguments must be an object")
    | none ↦ error_value (tooling.fault_text (undecodable (string arguments)))
  ]
  answer_arguments name other = error_value (tooling.fault_text (undecodable other))

  -- The name is read after the arguments were checked.
  named_call : Option Json → Json → Json
  unfolding answer_arguments
  named_call (some name) arguments = answer_arguments name arguments
  named_call none (string arguments) = elim (tooling.loads arguments) [
    | some (object fields) ↦ error_value (tooling.fault_text no_name)
    | some other ↦ error_value (codes "tool arguments must be an object")
    | none ↦ error_value (tooling.fault_text (undecodable (string arguments)))
  ]
  named_call none other = error_value (tooling.fault_text (undecodable other))

  -- The `try` block for one call.
  call_value : Fields → Json
  unfolding named_call
  call_value call = elim (get call (codes "function")) [
    | none ↦ error_value (tooling.fault_text no_function)
    | some (object function) ↦ elim (get function (codes "arguments")) [
      | none ↦ error_value (tooling.fault_text no_arguments)
      | some arguments ↦ named_call (get function (codes "name")) arguments
    ]
    | some other ↦ error_value (tooling.fault_text function_not_a_dict)
  ]

  -- The `for` loop: the ids seen before, and an answer as id and content for each call.
  answers : List Text → List Json → Checked (List (Text × Text))
  unfolding call_value mem_text
  answers seen [] = valid []
  answers seen (object call ∷ calls) = elim (get call (codes "id")) [
    | some (string id) ↦
        let later = answers (id ∷ seen) calls in
        if mem_text id seen
        then error (codes "tool call ids must be unique within a round")
        else elim later [
          | valid rest ↦ valid ((id, dumps sorted (call_value call)) ∷ rest)
          | error e ↦ error e
        ]
    | _ ↦ error (codes "tool call requires a string id")
  ]
  answers seen (other ∷ calls) = error (codes "tool call requires a string id")

  unfoldable pub tool_results : Fields → Checked ToolRound
  unfolding answers assistant_message
  tool_results message = elim (or_null (get message (codes "tool_calls"))) [
    | array (item first more) ↦
        let calls = list_of (item first more) in
        if ltb 6 (length calls)
        then error (codes "a tool round must contain between one and six calls")
        else elim (answers [] calls) [
          | valid responses ↦ valid (record {
            assistant = assistant_message message (array (item first more));
            responses = responses;
          })
          | error e ↦ error e
        ]
    | _ ↦ error (codes "a tool round must contain between one and six calls")
  ]

  -- A validated diagnosis loses the flag, which marks our own fallbacks only.
  unfoldable pub accept : Arm → Checked Diagnosis → Checked Diagnosis
  accept arm (error e) = error e
  accept arm (valid d) = allowed_citations arm (record d { evidence = not_automatic d.evidence })

  unfoldable pub parse_content : Arm → Json → Checked Diagnosis
  parse_content arm (string content) = accept arm (tooling.validate content)
  parse_content arm other = error (codes "final answer content must be a JSON string")

  unfoldable pub parse_diagnosis : Fields → Arm → Checked Diagnosis
  parse_diagnosis message arm =
      if truthy (or_null (get message (codes "tool_calls")))
      then error (codes "a final answer must contain Diagnosis JSON, not tool calls")
      else parse_content arm (or_null (get message (codes "content")))
