-- ===== src/Triage/Arms/Run/Ends.antt =====
-- One round of `run_arm`: what it leaves for the next round, and what the last round leaves.
use airtrace.Prelude.{
  ℕ, suc, ◌+◌, ◌-◌, ◌≤◌, ◌<◌, ◌≡◌, ◌≢◌, ◌⊎◌, refl, ap, sym, subst, ◌∙◌, false, [], ◌∷◌, length,
  length-append, if◌then◌else◌, arith, inl, inr,
}
use airtrace.Text.Base.{Text}
use airtrace.Triage.Schema.{Diagnosis}
use airtrace.Triage.Arms.Types.{Arm, Completion, diagnosed, Stage, invalid, Plan, ArmResult}
use airtrace.Triage.Arms.Messages.{ToolRound}
use airtrace.Triage.Arms.Setup.{Setting}
use airtrace.Triage.Arms.State.{Loop, Next, again, done, account, traced}
use airtrace.Triage.Arms.Run.{after_tools, gave_up, repairing, after_invalid}
use airtrace.Triage.Arms.Run.Model.{IsModelDiagnosis}

-- What an ended loop holds: a model's diagnosis, or another outcome and the diagnosis from before.
abbrev pub Settled : Arm → Diagnosis → ArmResult → Type 0
Settled arm before r =
    (r.outcome ≡ diagnosed) × IsModelDiagnosis arm r.diagnosis
    ⊎ (r.outcome ≢ diagnosed) × (r.diagnosis ≡ before)

-- The rounds that may still follow.
abbrev pub rounds_left : ℕ → Loop → ℕ
rounds_left max_tool_rounds s = if s.repair_used then 0 else suc (max_tool_rounds - s.tool_rounds)

-- From `s`, with `c` completions and as many trace records in front of the round.
abbrev pub Leads : Setting → Loop → Next → Type 0
Leads set s (again t) =
    (rounds_left set.max_tool_rounds t < rounds_left set.max_tool_rounds s)
    × (t.call_index ≡ suc s.call_index)
    × (length t.trace ≡ suc (length s.trace))
    × (t.result.diagnosis ≡ s.result.diagnosis)
    × (t.result.outcome ≡ s.result.outcome)
Leads set s (done t) =
    (t.call_index ≤ suc s.call_index)
    × (t.call_index + length s.trace ≡ s.call_index + length t.trace)
    × Settled set.arm s.result.diagnosis t.result

module _ (set : Setting) (plan : Plan) where
  -- A round of tools uses up at least one of the rounds, and changes nothing that is counted.
  pub after_tools-parts :
      (s : Loop) (r : ToolRound)
      → s.tool_rounds < set.max_tool_rounds
      → (s.tool_rounds < (after_tools set plan s r).tool_rounds)
        × ((after_tools set plan s r).tool_rounds ≤ set.max_tool_rounds)
        × ((after_tools set plan s r).repair_used ≡ s.repair_used)
        × ((after_tools set plan s r).call_index ≡ s.call_index)
        × ((after_tools set plan s r).trace ≡ s.trace)
        × ((after_tools set plan s r).result.diagnosis ≡ s.result.diagnosis)
        × ((after_tools set plan s r).result.outcome ≡ s.result.outcome)
  unfolding after_tools
  after_tools-parts s r h = ground arith

  length-traced :
      (s : Loop) (c : Completion) (stage : Stage)
      → length (traced s c stage).trace ≡ suc (length s.trace)
  unfolding traced
  length-traced s c stage =
      omega (arith, length-append s.trace (record { completion = c; stage = stage } ∷ []))

  -- The state behind the bookkeeping of one more completion.
  abbrev pub Counted : Loop → Loop → Type 0
  Counted s a =
      (a.call_index ≡ suc s.call_index)
      × (a.trace ≡ s.trace)
      × (a.tool_rounds ≡ s.tool_rounds)
      × (a.repair_used ≡ s.repair_used)
      × (a.result.diagnosis ≡ s.result.diagnosis)
      × (a.result.outcome ≡ s.result.outcome)

  pub account-Counted : (s : Loop) (c : Completion) → Counted s (account s c)
  unfolding account
  account-Counted s c = (omega arith, refl, refl, refl, refl, refl)

  -- Whether repairs are used up decides what follows an exception.
  after_invalid-cases :
      (a : Loop) (c : Completion) (text : Text)
      → (after_invalid set a c text ≡ done (gave_up set (traced a c (invalid text))))
        ⊎ (a.repair_used ≡ false)
          × (after_invalid set a c text ≡ again (repairing set (traced a c (invalid text)) text))
  unfolding after_invalid
  after_invalid-cases a c text = ground arith

  gave_up-Leads :
      (s a : Loop) (c : Completion) (text : Text)
      → Counted s a
      → Leads set s (done (gave_up set (traced a c (invalid text))))
  unfolding gave_up traced
  gave_up-Leads s a c text k = (
    omega (arith, k.0),
    omega (
      arith,
      k.0,
      ap length k.1,
      length-append a.trace (record { completion = c; stage = invalid text } ∷ []),
    ),
    inr ((λ e. cc), k.4),
  )

  some_left : (s : Loop) → s.repair_used ≡ false → 0 < rounds_left set.max_tool_rounds s
  some_left s free = ground arith

  repairing-Leads :
      (s a : Loop) (c : Completion) (text : Text)
      → Counted s a
      → a.repair_used ≡ false
      → Leads set s (again (repairing set (traced a c (invalid text)) text))
  unfolding repairing traced
  repairing-Leads s a c text k free = (
    some_left s (sym k.3 ∙ free),
    k.0,
    omega (
      arith,
      ap length k.1,
      length-append a.trace (record { completion = c; stage = invalid text } ∷ []),
    ),
    k.4,
    k.5,
  )

  pub after_invalid-Leads :
      (s a : Loop) (c : Completion) (text : Text)
      → Counted s a
      → Leads set s (after_invalid set a c text)
  after_invalid-Leads s a c text k = elim (after_invalid-cases a c text) [
    | inl e ↦ subst (Leads set s) (sym e) (gave_up-Leads s a c text k)
    | inr (free, e) ↦ subst (Leads set s) (sym e) (repairing-Leads s a c text k free)
  ]

  pub fewer_left :
      (s t : Loop)
      → s.repair_used ≡ false
      → t.repair_used ≡ false
      → s.tool_rounds < t.tool_rounds
      → t.tool_rounds ≤ set.max_tool_rounds
      → rounds_left set.max_tool_rounds t < rounds_left set.max_tool_rounds s
  fewer_left s t free still more bound =
      let here : rounds_left set.max_tool_rounds s ≡ suc (set.max_tool_rounds - s.tool_rounds) =
        ground arith in
      let there : rounds_left set.max_tool_rounds t ≡ suc (set.max_tool_rounds - t.tool_rounds) =
        ground arith in
      omega arith
