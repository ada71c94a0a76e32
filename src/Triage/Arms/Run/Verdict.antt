-- ===== src/Triage/Arms/Run/Verdict.antt =====
-- How `run_arm` of triage/arms.py ends.
use airtrace.Prelude.{
  ℕ, zero, suc, ◌+◌, ◌≤◌, ◌<◌, ◌≡◌, refl, ap, sym, subst, ◌∙◌, Option, none, some, List, length,
  arith,
}
use airtrace.Json.{Json}
use airtrace.Triage.Schema.{Diagnosis, unknown, insufficient}
use airtrace.Triage.Arms.Types.{diagnosed, Plan}
use airtrace.Triage.Arms.Setup.{Setting, initial_messages, preflight}
use airtrace.Triage.Arms.State.{Loop, Next, again, done}
use airtrace.Triage.Arms.Run.{
  round, continue_with, run_loop, first_loop, ran, loop_fuel, start_loop, start_planned, start,
  run_arm,
}
use airtrace.Triage.Arms.Run.Ends.{Settled, rounds_left, Leads}
use airtrace.Triage.Arms.Run.Rounds.{round-Leads}

-- The end of the loop, seen from the state `s`.
abbrev pub Ended : Setting → Loop → Option Loop → Type 0
Ended set s out =
    (t : Loop) × (out ≡ some t)
    × (t.call_index ≤ s.call_index + suc (rounds_left set.max_tool_rounds s))
    × (t.call_index + length s.trace ≡ s.call_index + length t.trace)
    × Settled set.arm s.result.diagnosis t.result

module _ (set : Setting) (plan : Plan) where
  continue_with-Ended :
      (s : Loop) (next : Next) (later : Loop → Option Loop)
      → s.result.outcome ≡ diagnosed
      → Leads set s next
      → ((t : Loop)
          → rounds_left set.max_tool_rounds t < rounds_left set.max_tool_rounds s
          → t.result.outcome ≡ diagnosed
          → Ended set t (later t))
      → Ended set s (continue_with set later next)
  unfolding continue_with
  continue_with-Ended s (again t) later o (fewer, index, steps, same, outcome) rest =
      let (u, e, calls, traces, settled) = rest t fewer (outcome ∙ o) in
      (u, e, omega arith, omega arith, subst (λ d. Settled set.arm d u.result) same settled)
  continue_with-Ended s (done t) later o (index, traces, settled) rest =
      (t, refl, omega arith, traces, settled)

  run_loop-Ended :
      (fuel : ℕ) (s : Loop)
      → s.result.outcome ≡ diagnosed
      → rounds_left set.max_tool_rounds s < fuel
      → Ended set s (run_loop set fuel plan s)
  unfolding run_loop
  run_loop-Ended zero s o h = absurd (omega arith)
  run_loop-Ended (suc fuel) s o h =
      continue_with-Ended s (round set plan s) (run_loop set fuel plan) o (round-Leads set plan s o)
        (λ t fewer diag. run_loop-Ended fuel t diag (omega arith))

-- What a run that is not refused went through.
abbrev Ran : Setting → Plan → Option Loop → List Json → Option Plan → Option Diagnosis → Type 0
Ran set plan out messages planned fallback =
    (d : Diagnosis) × (planned ≡ some plan)
    × (fallback ≡ some d)
    × (out ≡ run_loop set (loop_fuel set.max_tool_rounds) plan (first_loop messages d))

start_loop-Ran :
    (set : Setting) (plan made : Plan) (out : Option Loop) (messages : List Json)
    (fallback : Option Diagnosis)
    → start_loop set messages made fallback ≡ ran plan out
    → Ran set plan out messages (some made) fallback
unfolding start_loop
start_loop-Ran set plan made out messages none h = cc
start_loop-Ran set plan made out messages (some d) h =
    let same : made ≡ plan = ground arith in
    let result : run_loop set (loop_fuel set.max_tool_rounds) made (first_loop messages d) ≡ out =
      ground arith in
    (
      d,
      ap some same,
      refl,
      sym result
          ∙ ap (λ p. run_loop set (loop_fuel set.max_tool_rounds) p (first_loop messages d)) same,
    )

start_planned-Ran :
    (set : Setting) (plan : Plan) (out : Option Loop) (messages : List Json) (planned : Option Plan)
    → start_planned set messages planned ≡ ran plan out
    → Ran set plan out messages planned (unknown set.view insufficient)
unfolding start_planned
start_planned-Ran set plan out messages none h = cc
start_planned-Ran set plan out messages (some made) h =
    start_loop-Ran set plan made out messages (unknown set.view insufficient) h

start-Ran :
    (set : Setting) (plan : Plan) (out : Option Loop) (first : Option (List Json))
    → start set first ≡ ran plan out
    → (messages : List Json) × (first ≡ some messages)
      × Ran set plan out messages (preflight set messages) (unknown set.view insufficient)
unfolding start
start-Ran set plan out none h = cc
start-Ran set plan out (some messages) h =
    (messages, refl, start_planned-Ran set plan out messages (preflight set messages) h)

run_arm-parts :
    (set : Setting) (plan : Plan) (out : Option Loop)
    → run_arm set ≡ ran plan out
    → (messages : List Json) × (initial_messages set ≡ some messages)
      × Ran set plan out messages (preflight set messages) (unknown set.view insufficient)
unfolding run_arm
run_arm-parts set plan out h = start-Ran set plan out (initial_messages set) (ground (arith, h))

-- A run that is not refused ends: the fuel is enough, at most `max_tool_rounds + 2` completions are
-- asked for, and the trace has one record for each of them.
pub run_arm_ends :
    (set : Setting) (plan : Plan) (out : Option Loop)
    → run_arm set ≡ ran plan out
    → (t : Loop) × (out ≡ some t)
      × (t.call_index ≤ set.max_tool_rounds + 2)
      × (length t.trace ≡ t.call_index)
run_arm_ends set plan out h =
    let (messages, _, (d, _, _, e)) = run_arm-parts set plan out h in
    let (t, f, calls, traces, _) =
      run_loop-Ended set plan (loop_fuel set.max_tool_rounds) (first_loop messages d) refl
        (omega arith) in
    (t, e ∙ f, omega (arith, calls), omega (arith, traces))

-- An ended run either has a diagnosis of the model, in which no citation is marked automatic and
-- which for `llm_raw` cites no frame, or has another outcome and still holds the `unknown` fallback.
pub run_arm-Settled :
    (set : Setting) (plan : Plan) (t : Loop)
    → run_arm set ≡ ran plan (some t)
    → (d : Diagnosis) × (unknown set.view insufficient ≡ some d) × Settled set.arm d t.result
run_arm-Settled set plan t h =
    let (messages, _, (d, _, u, e)) = run_arm-parts set plan (some t) h in
    let (r, f, _, _, settled) =
      run_loop-Ended set plan (loop_fuel set.max_tool_rounds) (first_loop messages d) refl
        (omega arith) in
    let same : r ≡ t = ground (arith, e ∙ f) in
    (d, u, subst (λ x. Settled set.arm d x.result) same settled)
