-- ===== src/Triage/Arms/Run/Rounds.antt =====
-- One round of `run_arm`, whatever the model answers.
use airtrace.Prelude.{
  ℕ, ◌<◌, ◌≡◌, ◌≢◌, ◌⊎◌, refl, ap, sym, subst, ◌∙◌, Bool, true, false, Option, some, [], ◌∷◌,
  length, length-append, arith, inl, inr,
}
use airtrace.Text.Base.{Text}
use airtrace.Json.{Fields}
use airtrace.Triage.Schema.{Diagnosis}
use airtrace.Triage.Client.Estimate.{estimate_prompt_tokens}
use airtrace.Triage.Arms.Types.{
  Answer, message, failed, Completion, Reply, context_limit, completed, Outcome, diagnosed,
  truncated, Stage, unchecked, was_truncated, tool_calls, Plan,
}
use airtrace.Triage.Arms.Messages.{Checked, ToolRound, tool_results, parse_diagnosis}
use airtrace.Triage.Arms.Setup.{Setting}
use airtrace.Triage.Arms.State.{Loop, again, done, account, traced, closed}
use airtrace.Triage.Arms.Run.{
  answered, after_tools, after_round, after_answer, after_message, after_attempt, after_reply,
  oversized, after_completion, offered_tools, is_offered, round,
}
use airtrace.Triage.Arms.Run.Model.{IsModelDiagnosis, parse_diagnosis-valid}
use airtrace.Triage.Arms.Run.Ends.{
  Leads, account-Counted, after_invalid-Leads, after_tools-parts, fewer_left, Counted,
}

module _ (set : Setting) (plan : Plan) where
  -- A round of tools.
  tool_round-Leads :
      (s a : Loop) (c : Completion) (r : ToolRound)
      → Counted set plan s a
      → s.repair_used ≡ false
      → s.tool_rounds < set.max_tool_rounds
      → Leads set s (again (traced (after_tools set plan a r) c tool_calls))
  unfolding traced
  tool_round-Leads s a c r k free h =
      let parts = after_tools-parts set plan a r (omega (arith, k.2)) in
      let u = after_tools set plan a r in
      (
        fewer_left set plan s u free (parts.2 ∙ (k.3 ∙ free)) (omega (arith, parts.0, k.2)) parts.1,
        omega (arith, parts.3, k.0),
        omega (
          arith,
          ap length parts.4,
          ap length k.1,
          length-append u.trace (record { completion = c; stage = tool_calls } ∷ []),
        ),
        parts.5 ∙ k.4,
        parts.6 ∙ k.5,
      )

  -- A diagnosis.
  answered-Leads :
      (s a : Loop) (c : Completion) (d : Diagnosis)
      → Counted set plan s a
      → s.result.outcome ≡ diagnosed
      → IsModelDiagnosis set.arm d
      → Leads set s (done (answered a c d))
  unfolding traced answered
  answered-Leads s a c d k o good = (
    omega (arith, k.0),
    omega (
      arith,
      k.0,
      ap length k.1,
      length-append a.trace (record { completion = c; stage = Stage.diagnosis } ∷ []),
    ),
    inl (k.5 ∙ o, good),
  )

  after_round-Leads :
      (s a : Loop) (c : Completion) (v : Checked ToolRound)
      → Counted set plan s a
      → s.repair_used ≡ false
      → s.tool_rounds < set.max_tool_rounds
      → Leads set s (after_round set plan a c v)
  unfolding after_round
  after_round-Leads s a c (Checked.valid r) k free h = tool_round-Leads s a c r k free h
  after_round-Leads s a c (Checked.error text) k free h = after_invalid-Leads set plan s a c text k

  after_answer-Leads :
      (s a : Loop) (c : Completion) (v : Checked Diagnosis)
      → Counted set plan s a
      → s.result.outcome ≡ diagnosed
      → ((d : Diagnosis) → v ≡ Checked.valid d → IsModelDiagnosis set.arm d)
      → Leads set s (after_answer set a c v)
  unfolding after_answer
  after_answer-Leads s a c (Checked.valid d) k o good = answered-Leads s a c d k o (good d refl)
  after_answer-Leads s a c (Checked.error text) k o good = after_invalid-Leads set plan s a c text k

  after_message-cases :
      (a : Loop) (c : Completion) (offered : Bool) (m : Fields)
      → (offered ≡ true)
          × (after_message set plan a c offered m
              ≡ after_round set plan a c (tool_results set.tooling m))
        ⊎ (after_message set plan a c offered m
            ≡ after_answer set a c (parse_diagnosis set.tooling m set.arm))
  unfolding after_message
  after_message-cases a c offered m = ground arith

  after_message-Leads :
      (s a : Loop) (c : Completion) (offered : Bool) (m : Fields)
      → Counted set plan s a
      → s.result.outcome ≡ diagnosed
      → (offered ≡ true → (s.repair_used ≡ false) × (s.tool_rounds < set.max_tool_rounds))
      → Leads set s (after_message set plan a c offered m)
  after_message-Leads s a c offered m k o may = elim (after_message-cases a c offered m) [
    | inl (asked, e) ↦
        subst (Leads set s) (sym e)
          (after_round-Leads s a c (tool_results set.tooling m) k (may asked).0 (may asked).1)
    | inr e ↦ subst (Leads set s) (sym e) (
        after_answer-Leads s a c (parse_diagnosis set.tooling m set.arm) k o
          (λ d h. parse_diagnosis-valid set.tooling m set.arm d h))
  ]

  -- An answer that is cut off or failed.
  closed-Leads :
      (s a : Loop) (c : Completion) (outcome : Outcome) (text : Option Text) (stage : Stage)
      → Counted set plan s a
      → outcome ≢ diagnosed
      → Leads set s (done (traced (closed a outcome text) c stage))
  unfolding closed traced
  closed-Leads s a c outcome text stage k other = (
    omega (arith, k.0),
    omega (
      arith,
      k.0,
      ap length k.1,
      length-append a.trace (record { completion = c; stage = stage } ∷ []),
    ),
    inr (other, k.4),
  )

  after_attempt-Leads :
      (s a : Loop) (c : Completion) (offered : Bool) (answer : Answer)
      → Counted set plan s a
      → s.result.outcome ≡ diagnosed
      → (offered ≡ true → (s.repair_used ≡ false) × (s.tool_rounds < set.max_tool_rounds))
      → Leads set s (after_attempt set plan a c offered answer)
  unfolding after_attempt
  after_attempt-Leads s a c offered (failed text) k o may =
      closed-Leads s a c Outcome.error (some text) unchecked k (λ e. cc)
  after_attempt-Leads s a c offered (message m) k o may =
      after_message-Leads s a c offered m k o may

  after_completion-cases :
      (a : Loop) (c : Completion) (offered : Bool)
      → (after_completion set plan a c offered
          ≡ done (traced (closed a truncated a.result.error) c was_truncated))
        ⊎ (after_completion set plan a c offered ≡ after_attempt set plan a c offered c.answer)
  unfolding after_completion
  after_completion-cases a c offered = ground arith

  after_completion-Leads :
      (s a : Loop) (c : Completion) (offered : Bool)
      → Counted set plan s a
      → s.result.outcome ≡ diagnosed
      → (offered ≡ true → (s.repair_used ≡ false) × (s.tool_rounds < set.max_tool_rounds))
      → Leads set s (after_completion set plan a c offered)
  after_completion-Leads s a c offered k o may = elim (after_completion-cases a c offered) [
    | inl e ↦
        subst (Leads set s) (sym e)
          (closed-Leads s a c truncated a.result.error was_truncated k (λ e. cc))
    | inr e ↦ subst (Leads set s) (sym e) (after_attempt-Leads s a c offered c.answer k o may)
  ]

  -- Tools are offered only while rounds and the repair are left.
  is_offered-offered_tools :
      (s : Loop)
      → is_offered (offered_tools set s) ≡ true
      → (s.repair_used ≡ false) × (s.tool_rounds < set.max_tool_rounds)
  unfolding is_offered offered_tools
  is_offered-offered_tools s h = ground arith

  after_reply-Leads :
      (s : Loop) (reply : Reply) (offered : Bool)
      → s.result.outcome ≡ diagnosed
      → (offered ≡ true → (s.repair_used ≡ false) × (s.tool_rounds < set.max_tool_rounds))
      → Leads set s (after_reply set plan s offered reply)
  unfolding after_reply closed
  after_reply-Leads s (context_limit text) offered o may =
      (omega arith, refl, inr ((λ e. cc), refl))
  after_reply-Leads s (completed c) offered o may =
      after_completion-Leads s (account s c) c offered (account-Counted set plan s c) o may

  round-cases :
      (s : Loop)
      → (round set plan s
          ≡ done (oversized s (estimate_prompt_tokens s.messages (offered_tools set s))))
        ⊎ (round set plan s
            ≡ after_reply set plan s
                (is_offered (offered_tools set s))
                (set.complete s.call_index s.messages (offered_tools set s)))
  unfolding round
  round-cases s = ground arith

  oversized-Leads : (s : Loop) (estimated : ℕ) → Leads set s (done (oversized s estimated))
  unfolding oversized closed
  oversized-Leads s estimated = (omega arith, refl, inr ((λ e. cc), refl))

  -- One round of the loop.
  pub round-Leads : (s : Loop) → s.result.outcome ≡ diagnosed → Leads set s (round set plan s)
  round-Leads s o = elim (round-cases s) [
    | inl e ↦
        subst (Leads set s) (sym e)
          (oversized-Leads s (estimate_prompt_tokens s.messages (offered_tools set s)))
    | inr e ↦ subst (Leads set s) (sym e) (
        after_reply-Leads s (set.complete s.call_index s.messages (offered_tools set s))
          (is_offered (offered_tools set s)) o (is_offered-offered_tools s))
  ]
