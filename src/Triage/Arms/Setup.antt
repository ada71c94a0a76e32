-- ===== src/Triage/Arms/Setup.antt =====
-- What a model arm of triage/arms.py is given, its first messages and its plan: `initial_messages` and
-- `preflight`.
use airtrace.Prelude.{
  ℕ, ◌+◌, ◌-◌, Bool, Option, none, some, List, [], ◌∷◌, ◌++◌, ltb, min, if◌then◌else◌,
}
use airtrace.Text.Base.{Text, codes}
use airtrace.Json.{Json, string, object, end, field}
use airtrace.Triage.Data.{View, ViewName, client, full, Source, source_name, view_sources}
use airtrace.Triage.Client.Estimate.{Limits, estimate_prompt_tokens, check_context}
use airtrace.Triage.Arms.RawLogs.{raw_logs}
use airtrace.Triage.Arms.Types.{Arm, llm_raw, llm_tools, Reply, Plan}
use airtrace.Triage.Arms.Messages.{Tooling}

abbrev pub repair_reserve : ℕ
repair_reserve = 8192

abbrev pub max_history : ℕ
max_history = 16000

-- What one call of `run_arm` is given: `instructions` is the text of the prompt files with the schema
-- of a diagnosis, `definitions` are the tools of the view's toolbox, and `complete` is the client.
pub record Setting : Type 0 where
  pub arm : Arm
  pub view : View
  pub limits : Limits
  pub supports_tools : Bool
  pub raw_char_budget : ℕ
  pub max_tool_rounds : ℕ
  pub instructions : Text
  pub definitions : List Json
  pub tooling : Tooling
  pub complete : ℕ → List Json → Option (List Json) → Reply

abbrev pub chat_message : Text → Text → Json
chat_message role content =
    object (field (codes "role") (string role) (field (codes "content") (string content) end))

view_text : ViewName → Text
view_text client = codes "client"
view_text full = codes "full"

-- `", ".join(view.allowed_sources)`
source_list : List Source → Text
source_list [] = []
source_list (s ∷ []) = source_name s
source_list (s ∷ t ∷ ss) = source_name s ++ (codes ", " ++ source_list (t ∷ ss))

system_message : Setting → Json
unfolding view_text source_list
system_message set = chat_message (codes "system") (
    set.instructions
    ++ (10 ∷ codes "Observation view: ")
    ++ view_text set.view.name
    ++ codes "; available logs: "
    ++ source_list (view_sources set.view.name)
    ++ codes ".")

-- `none` is the `ValueError` of `raw_logs`.
unfoldable pub initial_messages : Setting → Option (List Json)
unfolding system_message
initial_messages set = elim set.arm [
  | llm_raw ↦ elim (raw_logs set.view set.raw_char_budget) [
    | none ↦ none
    | some (text, chunks) ↦ some (
        system_message set
        ∷ chat_message (codes "user") (codes "Diagnose these observations:" ++ (10 ∷ text))
        ∷ [])
  ]
  | llm_tools ↦ some (
      system_message set
      ∷ chat_message (codes "user") (codes "Diagnose the Wi-Fi connection attempt.")
      ∷ [])
]

-- The tools that a request of this arm may carry.
unfoldable pub arm_tools : Setting → Option (List Json)
arm_tools set = elim set.arm [ llm_tools ↦ some set.definitions | llm_raw ↦ none ]

unfoldable pub history_budget : Arm → ℕ → ℕ
history_budget llm_raw remaining = 0
history_budget llm_tools remaining = min max_history remaining

-- The plan behind `check_context`; the source's `remaining` is negative where this is `none`.
unfoldable pub plan_of : Limits → Arm → ℕ → Option ℕ → Option Plan
unfolding history_budget
plan_of limits arm initial none = none
plan_of limits arm initial (some estimate) =
    let taken = limits.max_tokens + initial + repair_reserve in
    let history = history_budget arm (limits.context_length - taken) in
    if ltb limits.context_length taken
    then none
    else some (record {
      initial = initial;
      largest = initial + history + repair_reserve;
      tool_history_budget = history;
    })

-- The plan for the initial messages, or `none` for a `ContextLimitError`.
unfoldable pub preflight : Setting → List Json → Option Plan
unfolding plan_of
preflight set messages =
    plan_of set.limits set.arm (estimate_prompt_tokens messages (arm_tools set))
      (check_context set.limits messages (arm_tools set))
