-- ===== src/Triage/Arms/Run.antt =====
-- `run_arm` of triage/arms.py for the two model arms: one round of the `while True` loop, and the loop
-- on fuel. Time is not modelled, so `latency_ms` is left
-- out; the trace is the list of records that a writer is given.
pub mod Model
pub mod Ends
pub mod Rounds
pub mod Context
pub mod Verdict
mod Examples
use airtrace.Prelude.{
  ℕ, zero, suc, ◌+◌, ◌-◌, Bool, true, false, not, Option, none, some, List, [], ◌∷◌, ◌++◌, ◌&&◌,
  ◌||◌, ◌==◌, ltb, leb, length, take, map, min, sum_by, if◌then◌else◌,
}
use airtrace.Text.Base.{Text, codes}
use airtrace.Text.Order.{text_eq}
use airtrace.Json.{Json, null, bool, string, array, object, Fields, end, field, get, plain, dumps}
use airtrace.Triage.Data.{View, ViewName, client, full, Source, source_name, view_sources}
use airtrace.Triage.Schema.{Diagnosis, unknown, insufficient}
use airtrace.Triage.Client.Estimate.{Limits, estimate_prompt_tokens, check_context}
use airtrace.Triage.Arms.RawLogs.{raw_logs}
use airtrace.Triage.Arms.Types.{
  Arm, llm_raw, llm_tools, Tokens, Answer, message, failed, Completion, Reply, context_limit,
  completed, Outcome, diagnosed, truncated, context_rejected, schema_failure, Stage, unchecked,
  was_truncated, tool_calls, diagnosis, invalid, TraceEntry, Plan, ArmResult, truthy, or_null,
}
use airtrace.Triage.Arms.Messages.{
  Checked, Tooling, tool_message, ToolRound, tool_results, parse_diagnosis,
}
use airtrace.Triage.Arms.Setup.{Setting, chat_message, initial_messages, arm_tools, preflight}
use airtrace.Triage.Arms.State.{Loop, Next, again, done, account, traced, closed, is_length}

omitted_content : Text
omitted_content = dumps plain (
    object (
      field (codes "error")
        (string (codes "Tool output omitted because the context transcript budget is exhausted."))
        (field (codes "truncated") (bool true) end)))

exhausted_message : Json
exhausted_message =
    chat_message (codes "user")
      (codes "Tool budget exhausted. Return the final Diagnosis JSON now.")

-- The final answer ends the loop.
unfoldable pub answered : Loop → Completion → Diagnosis → Loop
answered s c d =
    let r = s.result in traced (record s { result = record r { diagnosis = d } }) c diagnosis

-- `bool(tools)`
unfoldable pub is_offered : Option (List Json) → Bool
is_offered none = false
is_offered (some []) = false
is_offered (some (t ∷ ts)) = true

-- The next request is estimated above the plan.
unfoldable pub oversized : Loop → ℕ → Loop
oversized s estimated =
    let r = s.result in
    closed (record s { result = record r { rejected_estimate = some estimated } }) context_rejected
      (some (codes "Next request exceeds the preflight planned prompt limit"))

module _ (set : Setting) where
  -- The messages of a tool round, with their contents or without them.
  additions : Bool → ToolRound → List Json
  unfolding omitted_content
  additions omit round =
      round.assistant
      ∷ map (λ r. tool_message r.0 (if omit then omitted_content else r.1)) round.responses

  unfoldable pub after_tools : Plan → Loop → ToolRound → Loop
  unfolding additions exhausted_message
  after_tools plan s round =
      let projected =
        estimate_prompt_tokens (s.messages ++ additions false round) (some set.definitions) in
      let over = ltb (plan.initial + plan.tool_history_budget) projected in
      let rounds = if over then set.max_tool_rounds - 1 + 1 else s.tool_rounds + 1 in
      let r = s.result in
      let extended = s.messages ++ additions over round in
      record s {
        messages =
            if rounds == set.max_tool_rounds then extended ++ exhausted_message ∷ [] else extended;
        tool_rounds = rounds;
        result =
            if over
            then record r {
              omitted =
                  r.omitted ++ (s.call_index - 1, sum_by (λ p. length p.1) round.responses) ∷ [];
            }
            else r;
      }

  repair_message : Text → Json
  repair_message text = chat_message (codes "user") (
      codes "Validation failed: "
      ++ take 1000 text
      ++ (10 ∷ codes "Return one corrected Diagnosis JSON object. No tools are available."))

  -- The second failure ends the loop.
  unfoldable pub gave_up : Loop → Loop
  gave_up s =
      let r = s.result in
      record s {
        result = record r {
          schema_failure = true;
          outcome = schema_failure;
          error = some (codes "diagnosis schema validation failed after one repair");
        };
      }

  -- The first failure asks for one repair.
  unfoldable pub repairing : Loop → Text → Loop
  unfolding repair_message
  repairing s text = record s {
    repair_used = true;
    messages = s.messages ++ repair_message text ∷ [];
  }

  -- The `except` clause: one repair, then the end.
  unfoldable pub after_invalid : Loop → Completion → Text → Next
  after_invalid s c text =
      if s.repair_used
      then done (gave_up (traced s c (invalid text)))
      else again (repairing (traced s c (invalid text)) text)

  -- The branch of the tools, behind `_tool_results`.
  unfoldable pub after_round : Plan → Loop → Completion → Checked ToolRound → Next
  after_round plan s c (Checked.valid round) =
      again (traced (after_tools plan s round) c tool_calls)
  after_round plan s c (Checked.error text) = after_invalid s c text

  -- The branch of the final answer, behind `_parse_diagnosis`.
  unfoldable pub after_answer : Loop → Completion → Checked Diagnosis → Next
  after_answer s c (Checked.valid d) = done (answered s c d)
  after_answer s c (Checked.error text) = after_invalid s c text

  -- A message: a round of tools where tools were offered, or else the final answer.
  unfoldable pub after_message : Plan → Loop → Completion → Bool → Fields → Next
  after_message plan s c offered m =
      if truthy (or_null (get m (codes "tool_calls"))) && offered
      then after_round plan s c (tool_results set.tooling m)
      else after_answer s c (parse_diagnosis set.tooling m set.arm)

  -- `completion.error` is looked at before the message.
  unfoldable pub after_attempt : Plan → Loop → Completion → Bool → Answer → Next
  after_attempt plan s c offered (failed text) =
      done (traced (closed s Outcome.error (some text)) c unchecked)
  after_attempt plan s c offered (message m) = after_message plan s c offered m

  -- A completion, already accounted for.
  unfoldable pub after_completion : Plan → Loop → Completion → Bool → Next
  after_completion plan s c offered =
      if is_length c.finish_reason
      then done (traced (closed s truncated s.result.error) c was_truncated)
      else after_attempt plan s c offered c.answer

  -- What the client gives back.
  unfoldable pub after_reply : Plan → Loop → Bool → Reply → Next
  after_reply plan s offered (context_limit text) = done (closed s context_rejected (some text))
  after_reply plan s offered (completed c) = after_completion plan (account s c) c offered

  -- The tools of the next request.
  unfoldable pub offered_tools : Loop → Option (List Json)
  offered_tools s =
      if ltb s.tool_rounds set.max_tool_rounds && not s.repair_used then arm_tools set else none

  -- One round of `while True`.
  unfoldable pub round : Plan → Loop → Next
  round plan s =
      let tools = offered_tools s in
      let estimated = estimate_prompt_tokens s.messages tools in
      if ltb plan.largest estimated
      then done (oversized s estimated)
      else after_reply plan s (is_offered tools) (set.complete s.call_index s.messages tools)

  unfoldable pub continue_with : (Loop → Option Loop) → Next → Option Loop
  continue_with later (done s) = some s
  continue_with later (again s) = later s

  -- The loop; `none` means that the fuel ran out.
  unfoldable pub run_loop : ℕ → Plan → Loop → Option Loop
  unfolding continue_with
  run_loop zero plan s = none
  run_loop (suc fuel) plan s = continue_with (run_loop fuel plan) (round plan s)

abbrev pub no_tokens : Tokens
no_tokens = record { prompt = some 0; completion = some 0; total = some 0 }

abbrev pub first_result : Diagnosis → ArmResult
first_result d = record {
  diagnosis = d;
  schema_failure = false;
  tokens = no_tokens;
  error = none;
  cost = some 0;
  pricing = object end;
  outcome = diagnosed;
  finish_reason = none;
  truncation_suspected = false;
  rejected_estimate = none;
  omitted = [];
}

-- The state in front of the loop.
abbrev pub first_loop : List Json → Diagnosis → Loop
first_loop messages d = record {
  messages = messages;
  tool_rounds = 0;
  repair_used = false;
  call_index = 0;
  result = first_result d;
  trace = [];
}

-- What `run_arm` raises in front of the loop.
pub data Refusal : Type 0 where
  no_tool_support bad_tool_rounds bad_budget context_exceeded nothing_to_cite : Refusal

pub data Run : Type 0 where
  refused : Refusal → Run
  ran : Plan → Option Loop → Run

abbrev pub loop_fuel : ℕ → ℕ
loop_fuel max_tool_rounds = max_tool_rounds + 2

-- The loop starts from the `unknown` fallback.
unfoldable pub start_loop : Setting → List Json → Plan → Option Diagnosis → Run
start_loop set messages plan none = refused nothing_to_cite
start_loop set messages plan (some d) =
    ran plan (run_loop set (loop_fuel set.max_tool_rounds) plan (first_loop messages d))

unfoldable pub start_planned : Setting → List Json → Option Plan → Run
unfolding start_loop
start_planned set messages none = refused context_exceeded
start_planned set messages (some plan) =
    start_loop set messages plan (unknown set.view insufficient)

unfoldable pub start : Setting → Option (List Json) → Run
unfolding start_planned
start set none = refused bad_budget
start set (some messages) = start_planned set messages (preflight set messages)

unfoldable pub is_supported : Arm → Bool → Bool
is_supported llm_raw supports_tools = true
is_supported llm_tools supports_tools = supports_tools

unfoldable pub run_arm : Setting → Run
unfolding start is_supported
run_arm set =
    if not (is_supported set.arm set.supports_tools)
    then refused no_tool_support
    else if ltb 10 set.max_tool_rounds
    then refused bad_tool_rounds
    else start set (initial_messages set)
