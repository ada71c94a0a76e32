-- ===== src/Triage/Arms/Run/Examples.antt =====
-- A run of `llm_tools` with a round of tools, a repair and a diagnosis, and the theorems at it.
use airtrace.Prelude.{
  ℕ, zero, suc, ◌+◌, ◌≤◌, ◌≡◌, ◌⊎◌, refl, true, false, Option, none, some, List, [], ◌∷◌, length,
}
use airtrace.Text.Base.{codes, is_space}
use airtrace.Text.Order.{text_eq, text_le}
use airtrace.Json.{
  Json, null, string, array, object, nil, item, Fields, end, field, get, items, dumps, escape,
  quote, print, separated, sort_fields,
}
use airtrace.Triage.Data.{
  wpa_supplicant, client, make_view, view_sources, log_of, log_or_empty, source_eq,
}
use airtrace.Triage.Schema.{
  Diagnosis, unknown, insufficient, solid_chars, citable_line, citable_log, RootCause,
}
use airtrace.Triage.Client.Estimate.{estimate_prompt_tokens, check_context}
use airtrace.Triage.Arms.Types.{llm_tools, message, Reply, completed, Plan, truthy}
use airtrace.Triage.Arms.Messages.{
  Checked, list_of, tool_results, accept, parse_content, parse_diagnosis, allowed_citations,
  not_automatic, tool_message,
}
use airtrace.Triage.Arms.Setup.{
  Setting, initial_messages, preflight, arm_tools, history_budget, plan_of,
}
use airtrace.Triage.Arms.State.{Loop, done, add_known, account, traced, closed, is_length}
use airtrace.Triage.Arms.Run.{
  first_loop, is_offered, oversized, answered, after_tools, gave_up, repairing, after_invalid,
  after_round, after_answer, after_message, after_attempt, after_completion, after_reply,
  offered_tools, round, continue_with, run_loop, no_tokens, Run, refused, ran, start_loop,
  start_planned, start, is_supported, run_arm,
}
use airtrace.Triage.Arms.Run.Ends.{Settled}
use airtrace.Triage.Arms.Run.Context.{preflight_fits, round_fits}
use airtrace.Triage.Arms.Run.Verdict.{run_arm_ends, run_arm-Settled}

abbrev given : Diagnosis
given = record {
  root_cause = RootCause.unknown_cause;
  evidence = [];
  confidence = codes "0.5";
  fix = codes "retry";
}

abbrev replied : Fields → Reply
replied m = completed (record {
  answer = message m;
  estimated_prompt_tokens = 1;
  finish_reason = none;
  truncation_suspected = false;
  pricing = null;
  cost = some 2;
  tokens = no_tokens;
})

abbrev asking : Fields
asking =
    field (codes "tool_calls")
      (array (
        item
          (object (
            field (codes "id") (string (codes "a")) (
              field (codes "function")
                (object (
                  field (codes "arguments") (string (codes "{}"))
                    (field (codes "name") (string (codes "summary")) end)))
                end)))
          nil))
      end

-- The first answer asks for a tool, the second has no text, the third is a diagnosis.
abbrev replies : ℕ → Reply
replies zero = replied asking
replies (suc zero) = replied (field (codes "content") null end)
replies (suc (suc n)) = replied (field (codes "content") (string (codes "{}")) end)

abbrev set_up : Setting
set_up = record {
  arm = llm_tools;
  view =
      make_view [] ((wpa_supplicant, codes "associated with the access point" ∷ []) ∷ []) [] client;
  limits = record { max_tokens = 1000; context_length = 100000 };
  supports_tools = true;
  raw_char_budget = 1000;
  max_tool_rounds = 2;
  instructions = codes "diagnose";
  definitions = object end ∷ [];
  tooling = record {
    loads = λ t. some (object end);
    fault_text = λ f. codes "fault";
    call_tool = λ name fields. null;
    validate = λ t. Checked.valid given;
  };
  complete = λ n messages tools. replies n;
}

abbrev loop_of : Run → Option Loop
loop_of (refused r) = none
loop_of (ran p out) = out

abbrev fallback_loop : Loop → Option Loop → Loop
fallback_loop d none = d
fallback_loop d (some t) = t

abbrev plan_in : Run → Plan
plan_in (refused r) = record { initial = 0; largest = 0; tool_history_budget = 0 }
plan_in (ran p out) = p

runs : Unit {0}
unfolding run_arm start start_planned start_loop is_supported initial_messages preflight plan_of
    history_budget arm_tools check_context estimate_prompt_tokens dumps print separated quote escape
    items unknown citable_log citable_line solid_chars is_space make_view view_sources log_of
    log_or_empty source_eq run_loop continue_with round offered_tools is_offered after_reply
    after_completion after_attempt after_message after_answer after_round after_invalid repairing
    gave_up after_tools answered oversized account add_known traced closed is_length truthy
    tool_results list_of tool_message parse_diagnosis parse_content accept allowed_citations
    not_automatic get text_eq text_le sort_fields
runs = tt

abbrev made : Plan
made = plan_in (run_arm set_up)

abbrev at_start : Loop
at_start = first_loop [] given

abbrev last : Loop
last = fallback_loop at_start (loop_of (run_arm set_up))

is_run : run_arm set_up ≡ ran made (some last)
unfolding runs
is_run = refl

-- The three answers were used, and the last one is the diagnosis.
three_calls : (last.call_index ≡ 3) × (last.result.diagnosis ≡ given)
unfolding runs
three_calls = (refl, refl)

run_arm_ends_example :
    (t : Loop) × (some last ≡ some t) × (t.call_index ≤ 4) × (length t.trace ≡ t.call_index)
run_arm_ends_example = run_arm_ends set_up made (some last) is_run

run_arm-Settled_example :
    (d : Diagnosis) × (unknown set_up.view insufficient ≡ some d) × Settled llm_tools d last.result
run_arm-Settled_example = run_arm-Settled set_up made last is_run

messages_or_empty : Option (List Json) → List Json
messages_or_empty none = []
messages_or_empty (some messages) = messages

abbrev first_messages : List Json
first_messages = messages_or_empty (initial_messages set_up)

planned : preflight set_up first_messages ≡ some made
unfolding runs messages_or_empty
planned = refl

preflight_fits_example :
    (made.largest + 1000 ≤ 100000) × (made.initial + made.tool_history_budget + 8192 ≡ made.largest)
preflight_fits_example = preflight_fits set_up first_messages made planned

round_fits_example :
    (round set_up made at_start
      ≡ done (oversized at_start (estimate_prompt_tokens [] (offered_tools set_up at_start))))
    ⊎ (check_context set_up.limits [] (offered_tools set_up at_start)
        ≡ some (estimate_prompt_tokens [] (offered_tools set_up at_start)))
      × (round set_up made at_start
          ≡ after_reply set_up made at_start
              (is_offered (offered_tools set_up at_start))
              (set_up.complete 0 [] (offered_tools set_up at_start)))
round_fits_example = round_fits set_up first_messages made at_start planned
