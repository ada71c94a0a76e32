-- ===== src/Triage/Arms/Run/Context.antt =====
-- The context limit in triage/arms.py and triage/llm.py: a request that the loop sends fits.
use airtrace.Prelude.{ℕ, ◌+◌, ◌≤◌, ◌≡◌, ◌⊎◌, Option, none, some, List, arith}
use airtrace.Json.{Json}
use airtrace.Triage.Client.Estimate.{Limits, estimate_prompt_tokens, check_context}
use airtrace.Triage.Arms.Types.{Arm, llm_raw, llm_tools, Plan}
use airtrace.Triage.Arms.Setup.{
  repair_reserve, Setting, arm_tools, history_budget, plan_of, preflight,
}
use airtrace.Triage.Arms.State.{Loop, done}
use airtrace.Triage.Arms.Run.{oversized, offered_tools, is_offered, after_reply, round}

plan_of_fits :
    (limits : Limits) (arm : Arm) (initial : ℕ) (checked : Option ℕ) (plan : Plan)
    → plan_of limits arm initial checked ≡ some plan
    → (plan.largest + limits.max_tokens ≤ limits.context_length)
      × (plan.initial + plan.tool_history_budget + repair_reserve ≡ plan.largest)
unfolding plan_of history_budget
plan_of_fits limits llm_raw initial none plan h = cc
plan_of_fits limits llm_tools initial none plan h = cc
plan_of_fits limits llm_raw initial (some e) plan h = ground arith
plan_of_fits limits llm_tools initial (some e) plan h = ground arith

-- The largest prompt of a plan, with the longest answer, fits into the context of the model, and it is
-- the initial prompt with the tool history and the reserve of one repair.
pub preflight_fits :
    (set : Setting) (messages : List Json) (plan : Plan)
    → preflight set messages ≡ some plan
    → (plan.largest + set.limits.max_tokens ≤ set.limits.context_length)
      × (plan.initial + plan.tool_history_budget + repair_reserve ≡ plan.largest)
unfolding preflight
preflight_fits set messages plan h =
    plan_of_fits set.limits set.arm (estimate_prompt_tokens messages (arm_tools set))
      (check_context set.limits messages (arm_tools set)) plan h

-- Under a plan of `preflight`, a round ends the loop without a request, or the client's own check
-- accepts the request that it sends.
pub round_fits :
    (set : Setting) (messages : List Json) (plan : Plan) (s : Loop)
    → preflight set messages ≡ some plan
    → (round set plan s
        ≡ done (oversized s (estimate_prompt_tokens s.messages (offered_tools set s))))
      ⊎ (check_context set.limits s.messages (offered_tools set s)
          ≡ some (estimate_prompt_tokens s.messages (offered_tools set s)))
        × (round set plan s
            ≡ after_reply set plan s
                (is_offered (offered_tools set s))
                (set.complete s.call_index s.messages (offered_tools set s)))
unfolding round check_context
round_fits set messages plan s h = let fits = preflight_fits set messages plan h in ground arith
