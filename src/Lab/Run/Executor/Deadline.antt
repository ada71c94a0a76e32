-- ===== src/Lab/Run/Executor/Deadline.antt =====
-- The overall deadline of `Executor` in lab/run_lab.py, and the end of its waits.
use airtrace.Prelude.{
  length, ℕ, zero, suc, ◌+◌, ◌-◌, ◌*◌, ◌/◌, ◌≤◌, ◌≡◌, refl, min, Bool, true, false, Option, none,
  some, List, [], ◌∷◌, ◌&&◌, leb, ltb, Bool-cases, inl, inr, arith,
}
use airtrace.Text.Base.{Text, contains}
use airtrace.Triage.Schema.{ClassId}
use airtrace.Lab.Scenarios.{Parameters}
use airtrace.Lab.Run.Plan.{Argv, Step, run, start, wait, require, delay, Phys}
use airtrace.Lab.Run.State.{
  Outcome, completed, no_start, expired, Executor, Host, out_of_fuel, Result, returned, threw, Done,
  then_with, fresh, run_timeout,
}
use airtrace.Lab.Run.Executor.{
  Reply, remaining, limit_of, note_success, add_entry, checked_reply, conclude, sleep, first_exited,
  healthy_if, healthy, invoke, run_command, slept, elapse, spawned, started, expected, wait_until,
  waited, act, execute, execute_all, execute_first, with_radios, play,
}

-- A method returns with the first property, or throws another exception than that of the fuel, with
-- the second.
abbrev pub EndsWith : {A : Type 0} → (Executor → Type 0) → (Executor → Type 0) → Result A → Type 0
EndsWith P Q (returned a st) = P st
EndsWith P Q (threw e st) = Q st × (e ≡ out_of_fuel → ⊥)

then_with-EndsWith :
    {A B : Type 0} (P R Q : Executor → Type 0) (r : Result A) (next : A → Executor → Result B)
    → EndsWith P Q r
    → ((a : A) (st : Executor) → P st → EndsWith R Q (next a st))
    → EndsWith R Q (then_with r next)
unfolding then_with
then_with-EndsWith P R Q (returned a st) next h k = k a st h
then_with-EndsWith P R Q (threw e st) next h k = h

-- In time, for a method that returns, from a time on; and late, for one that throws.
abbrev InTime : ℕ → ℕ → ℕ → Executor → Type 0
InTime d grace since st = (st.deadline ≡ d) × (since ≤ st.now) × (st.now ≤ d + grace)

abbrev Late : ℕ → ℕ → Executor → Type 0
Late d grace st = (st.deadline ≡ d) × (st.now ≤ d + (grace + grace))

weaker_ends :
    (d grace : ℕ) (r : Result Done)
    → EndsWith (InTime d grace 0) (Late d grace) r
    → EndsWith (λ st. st.now ≤ d + grace) (λ st. st.now ≤ d + (grace + grace)) r
weaker_ends d grace (returned a st) h = h.2
weaker_ends d grace (threw e st) h = (h.0.1, h.1)

module _ (host : Host) (d grace : ℕ)
    (prompt : (n : ℕ) (argv : Argv) (limit : ℕ) → host.elapsed n argv limit ≤ limit + grace)
    (wakes : (t : ℕ) → host.lag t ≤ grace)
    (spawns : (n : ℕ) (argv : Argv) → host.start_time n argv ≤ grace) where
  conclude-EndsWith :
      (since : ℕ) (st : Executor) (argv : Argv) (check : Bool) (result : Outcome)
      → InTime d grace since st
      → EndsWith (InTime d grace since) (Late d grace) (conclude st argv check result)
  unfolding conclude note_success checked_reply
  conclude-EndsWith since st argv check (completed true out) h = h
  conclude-EndsWith since st argv true (completed false out) (a, b, c) =
      ((a, omega arith), (λ e. cc))
  conclude-EndsWith since st argv false (completed false out) h = h
  conclude-EndsWith since st argv check (no_start e) (a, b, c) = ((a, omega arith), (λ e. cc))
  conclude-EndsWith since st argv check expired (a, b, c) = ((a, omega arith), (λ e. cc))

  run_command-EndsWith :
      (st : Executor) (argv : Argv) (timeout : ℕ) (check : Bool)
      → Late d grace st
      → EndsWith
          (InTime d grace st.now)
          (Late d grace)
          (run_command host st argv timeout check false)
  unfolding run_command limit_of remaining invoke add_entry
  run_command-EndsWith st argv timeout check (a, b) = elim (Bool-cases (leb st.deadline st.now)) [
    | inl e ↦ rw e ((a, b), (λ f. cc))
    | inr e ↦ rw e (
        let limit = min timeout (st.deadline - st.now) in
        let quick = prompt st.calls argv limit in
        conclude-EndsWith st.now _ argv check _ (a, omega arith, ground (arith, quick, a, e)))
  ]

  healthy-EndsWith :
      (since : ℕ) (st : Executor)
      → InTime d grace since st
      → EndsWith (InTime d grace since) (Late d grace) (healthy host st)
  unfolding healthy healthy_if
  healthy-EndsWith since st (a, b, c) =
      on_exit (first_exited host st.now st.capture_closed st.processes)
    where
      on_exit : (o : Option Argv) → EndsWith (InTime d grace since) (Late d grace) (healthy_if st o)
      on_exit none = (a, b, c)
      on_exit (some argv) = ((a, omega arith), (λ f. cc))

  slept-EndsWith :
      (st : Executor) (ms : ℕ)
      → InTime d grace 0 st
      → EndsWith (InTime d grace 0) (Late d grace) (slept host st ms (remaining st ms))
  unfolding slept remaining sleep
  slept-EndsWith st ms (a, b, c) = elim (Bool-cases (leb st.deadline st.now)) [
    | inl e ↦ rw e ((a, omega arith), (λ f. cc))
    | inr e ↦ rw e (elim (Bool-cases (ltb (min ms (st.deadline - st.now)) ms)) [
      | inl f ↦ rw f ((a, omega arith), (λ g. cc))
      | inr f ↦ rw f (a, omega arith, ground (arith, wakes st.now, a, e, f))
    ])
  ]

  expected-EndsWith :
      (text : Text) (reply : Reply) (st : Executor)
      → InTime d grace 0 st
      → EndsWith (InTime d grace 0) (Late d grace) (expected text reply st)
  unfolding expected
  expected-EndsWith text reply st (a, b, c) = elim (Bool-cases (contains text reply.stdout)) [
    | inl e ↦ rw e (a, b, c)
    | inr e ↦ rw e ((a, omega arith), (λ f. cc))
  ]

  -- One round of a wait takes half a second, or up to the deadline of the wait.
  round_of :
      (now since until lag fuel : ℕ)
      → since ≤ now
      → until ≤ since + 500 * suc fuel
      → until ≤ now + min 500 (until - now) + lag + 500 * fuel
  round_of now since until lag fuel a b = omega arith

  nap-round :
      (st : Executor) (until since fuel : ℕ)
      → since ≤ st.now
      → until ≤ since + 500 * suc fuel
      → until ≤ (sleep host st (min 500 (until - st.now))).now + 500 * fuel
  unfolding sleep
  nap-round st until since fuel a b = round_of st.now since until (host.lag st.now) fuel a b

  rounds : (now left : ℕ) → now + left ≤ now + 500 * (left / 500 + 1)
  rounds now left = omega arith

  nap-Late :
      (st : Executor) (until since : ℕ)
      → until ≤ d
      → InTime d grace since st
      → Late d grace (sleep host st (min 500 (until - st.now)))
  unfolding sleep
  nap-Late st until since u (a, b, c) = (a, ground (arith, wakes st.now, c, u))

  wait_until-EndsWith :
      (fuel : ℕ) (st : Executor) (argv : Argv) (text : Text) (until : ℕ)
      → until ≤ d
      → until ≤ st.now + 500 * fuel
      → Late d grace st
      → EndsWith (InTime d grace 0) (Late d grace) (wait_until host (suc fuel) st argv text until)
  unfolding wait_until
  wait_until-EndsWith zero st argv text until u f l = elim (Bool-cases (ltb st.now until)) [
    | inr e ↦ rw e (l, (λ g. cc))
    | inl e ↦ absurd (ground arith)
  ]
  wait_until-EndsWith (suc fuel) st argv text until u f l = elim (Bool-cases (ltb st.now until)) [
    | inr e ↦ rw e (l, (λ g. cc))
    | inl e ↦ rw e (
        then_with-EndsWith (InTime d grace st.now) (InTime d grace 0) (Late d grace) _ _
          (run_command-EndsWith st argv (min 3000 (until - st.now)) false l)
          (λ reply queried k. elim (Bool-cases (reply.succeeded && contains text reply.stdout)) [
            | inl g ↦ rw g (k.0, omega arith, k.2)
            | inr g ↦ rw g (
                then_with-EndsWith (InTime d grace st.now) (InTime d grace 0) (Late d grace) _ _
                  (healthy-EndsWith st.now queried k)
                  (λ ok checked m.
                    wait_until-EndsWith fuel (sleep host checked (min 500 (until - checked.now)))
                      argv text until u (nap-round checked until st.now fuel m.1 f)
                      (nap-Late checked until st.now u m)))
          ]))
  ]

  waited-EndsWith :
      (st : Executor) (argv : Argv) (text : Text) (timeout : ℕ)
      → Late d grace st
      → EndsWith (InTime d grace 0) (Late d grace) (waited host st argv text (remaining st timeout))
  unfolding waited remaining
  waited-EndsWith st argv text timeout l = elim (Bool-cases (leb st.deadline st.now)) [
    | inl e ↦ rw e (l, (λ g. cc))
    | inr e ↦ rw e (
        let left = min timeout (st.deadline - st.now) in
        wait_until-EndsWith (left / 500 + 1) st argv text (st.now + left) (ground (arith, l.0, e))
          (rounds st.now left) l)
  ]

  spawned-EndsWith :
      (st : Executor) (argv : Argv) (log : Text) (required can : Bool)
      → InTime d grace 0 st
      → EndsWith (InTime d grace 0) (Late d grace) (spawned st argv log required can)
  unfolding spawned add_entry
  spawned-EndsWith st argv log required true h = h
  spawned-EndsWith st argv log required false (a, b, c) = ((a, omega arith), (λ f. cc))

  elapse-InTime :
      (s : Executor) (t : ℕ)
      → InTime d grace 0 s
      → leb s.deadline s.now ≡ false
      → t ≤ grace
      → InTime d grace 0 (elapse s t)
  unfolding elapse
  elapse-InTime s t (x, y, z) early k = (x, omega arith, ground (arith, x, early, k))

  started-EndsWith :
      (st : Executor) (argv : Argv) (log : Text) (required : Bool) (timeout : ℕ)
      → InTime d grace 0 st
      → EndsWith
          (InTime d grace 0)
          (Late d grace)
          (started host st argv log required (remaining st timeout))
  unfolding started remaining
  started-EndsWith st argv log required timeout (a, b, c) =
      elim (Bool-cases (leb st.deadline st.now)) [
        | inl e ↦ rw e ((a, omega arith), (λ f. cc))
        | inr e ↦ rw e (
            let n = length st.processes in
            spawned-EndsWith (elapse st (host.start_time n argv)) argv log required _
              (elapse-InTime st (host.start_time n argv) (a, b, c) e (spawns n argv)))
      ]

  Late-InTime : (st : Executor) → InTime d grace 0 st → Late d grace st
  Late-InTime st (a, b, c) = (a, omega arith)

  earlier : (since : ℕ) (st : Executor) → InTime d grace since st → InTime d grace 0 st
  earlier since st (a, b, c) = (a, omega arith, c)

  act-EndsWith :
      (st : Executor) (step : Step)
      → InTime d grace 0 st
      → EndsWith (InTime d grace 0) (Late d grace) (act host st step)
  unfolding act
  act-EndsWith st (delay ms) h = slept-EndsWith st ms h
  act-EndsWith st (start argv log required) h = started-EndsWith st argv log required _ h
  act-EndsWith st (wait argv text) h = waited-EndsWith st argv text _ (Late-InTime st h)
  act-EndsWith st (run argv) h =
      then_with-EndsWith (InTime d grace st.now) (InTime d grace 0) (Late d grace) _ _
        (run_command-EndsWith st argv _ true (Late-InTime st h))
        (λ reply after k. earlier st.now after k)
  act-EndsWith st (require argv text) h =
      then_with-EndsWith (InTime d grace st.now) (InTime d grace 0) (Late d grace) _ _
        (run_command-EndsWith st argv _ true (Late-InTime st h))
        (λ reply after k. expected-EndsWith text reply after (earlier st.now after k))

  execute-EndsWith :
      (st : Executor) (step : Step)
      → InTime d grace 0 st
      → EndsWith (InTime d grace 0) (Late d grace) (execute host st step)
  unfolding execute
  execute-EndsWith st step h =
      then_with-EndsWith (InTime d grace 0) (InTime d grace 0) (Late d grace) _ _
        (healthy-EndsWith 0 st h) (λ ok checked k. act-EndsWith checked step k)

  execute_all-EndsWith :
      (st : Executor) (steps : List Step)
      → InTime d grace 0 st
      → EndsWith (InTime d grace 0) (Late d grace) (execute_all host st steps)
  unfolding execute_all
  execute_all-EndsWith st [] h = healthy-EndsWith 0 st h
  execute_all-EndsWith st (step ∷ steps) h =
      then_with-EndsWith (InTime d grace 0) (InTime d grace 0) (Late d grace) _ _
        (execute-EndsWith st step h) (λ ok after k. execute_all-EndsWith after steps k)

  execute_first-EndsWith :
      (st : Executor) (steps : List Step)
      → InTime d grace 0 st
      → EndsWith (InTime d grace 0) (Late d grace) (execute_first host st steps)
  unfolding execute_first
  execute_first-EndsWith st [] h = h
  execute_first-EndsWith st (step ∷ steps) h = execute-EndsWith st step h

  radios-EndsWith :
      (st : Executor) (found : Option Phys) (c : ClassId) (p : Parameters) (digest : Text → Text)
      (seed : ℕ) (root : Text)
      → InTime d grace 0 st
      → EndsWith (InTime d grace 0) (Late d grace) (with_radios host st found c p digest seed root)
  unfolding with_radios
  radios-EndsWith st none c p digest seed root (a, b, e) = ((a, omega arith), (λ f. cc))
  radios-EndsWith st (some phys) c p digest seed root h = execute_all-EndsWith st _ h

-- On a host whose commands and sleeps overrun what they are given by at most a grace, and where the
-- start of a process takes at most a grace, a run of the plan
-- always ends, with no wait out of its fuel: it returns by its deadline and one grace, or throws an
-- exception by its deadline and two.
pub play-EndsWith :
    (host : Host) (grace : ℕ)
    → ((n : ℕ) (argv : Argv) (limit : ℕ) → host.elapsed n argv limit ≤ limit + grace)
    → ((t : ℕ) → host.lag t ≤ grace)
    → ((n : ℕ) (argv : Argv) → host.start_time n argv ≤ grace)
    → (now : ℕ) (found : Option Phys) (c : ClassId) (p : Parameters) (digest : Text → Text)
      (seed : ℕ) (root : Text)
    → EndsWith
        (λ st. st.now ≤ now + run_timeout + grace)
        (λ st. st.now ≤ now + run_timeout + (grace + grace))
        (play host (fresh now) found c p digest seed root)
unfolding play fresh
play-EndsWith host grace prompt wakes spawns now found c p digest seed root =
    let d = now + run_timeout in
    let begun : InTime d grace 0 (fresh now) = (refl, omega arith, omega arith) in
    weaker_ends d grace _ (
      then_with-EndsWith (InTime d grace 0) (InTime d grace 0) (Late d grace) _ _
        (execute_first-EndsWith host d grace prompt wakes spawns (fresh now) _ begun)
        (λ ok after k.
          radios-EndsWith host d grace prompt wakes spawns after found c p digest seed root k))
