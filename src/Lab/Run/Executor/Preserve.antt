-- ===== src/Lab/Run/Executor/Preserve.antt =====
-- What the methods of `Executor` in lab/run_lab.py keep, whatever the host does: a property that a
-- command, a sleep and the start of a process keep is kept by a whole plan.
use airtrace.Prelude.{
  ℕ, zero, suc, Bool, true, false, Option, none, some, List, [], ◌∷◌, ◌&&◌, ltb, Bool-cases, inl,
  inr,
}
use airtrace.Text.Base.{Text, contains}
use airtrace.Triage.Schema.{ClassId}
use airtrace.Lab.Scenarios.{Parameters}
use airtrace.Lab.Run.Plan.{Argv, Step, run, start, wait, require, delay, Phys}
use airtrace.Lab.Run.State.{Executor, Host, Result, returned, threw, then_with}
use airtrace.Lab.Run.Executor.{
  Reply, remaining, limit_of, sleep, first_exited, healthy_if, healthy, invoke, run_command, slept,
  elapse, spawned, started, expected, wait_until, waited, act, execute, execute_all, execute_first,
  with_radios, play,
}

-- The property holds of the executor that a method leaves, also with an exception.
abbrev pub HoldsIn {ℓ κ} : {A : Type ℓ} → (Executor → Type κ) → Result A → Type κ
HoldsIn P (returned a st) = P st
HoldsIn P (threw e st) = P st

-- The steps that start no process.
abbrev pub StartsNothing : Step → Type 0
StartsNothing (start argv log required) = ⊥
StartsNothing _ = Unit

module _ {ℓ κ μ} {A : Type ℓ} {B : Type κ} (P Q : Executor → Type μ) where
  pub then_with-HoldsIn :
      (r : Result A) (next : A → Executor → Result B)
      → ((st : Executor) → P st → Q st)
      → HoldsIn P r
      → ((a : A) (st : Executor) → P st → HoldsIn Q (next a st))
      → HoldsIn Q (then_with r next)
  unfolding then_with
  then_with-HoldsIn (returned a st) next weaken h k = k a st h
  then_with-HoldsIn (threw e st) next weaken h k = weaken st h

module _ {κ} (P : Executor → Type κ) (host : Host) where
  pub healthy-HoldsIn : (st : Executor) → P st → HoldsIn P (healthy host st)
  unfolding healthy healthy_if
  healthy-HoldsIn st h = on_exit (first_exited host st.now st.capture_closed st.processes)
    where
      on_exit : (o : Option Argv) → HoldsIn P (healthy_if st o)
      on_exit none = h
      on_exit (some argv) = h

  pub expected-HoldsIn :
      (text : Text) (reply : Reply) (st : Executor) → P st → HoldsIn P (expected text reply st)
  unfolding expected
  expected-HoldsIn text reply st h = elim (Bool-cases (contains text reply.stdout)) [
    | inl e ↦ rw e h
    | inr e ↦ rw e h
  ]

module _ {κ} (P : Executor → Type κ) (host : Host)
    (on_call : (st : Executor) (argv : Argv) (timeout : ℕ) (check : Bool) (limit : Option ℕ)
      → P st
      → HoldsIn P (invoke host st argv timeout check limit))
    (on_sleep : (st : Executor) (ms : ℕ) → P st → P (sleep host st ms)) where
  run_command-HoldsIn :
      (st : Executor) (argv : Argv) (timeout : ℕ) (check cleanup : Bool)
      → P st
      → HoldsIn P (run_command host st argv timeout check cleanup)
  unfolding run_command
  run_command-HoldsIn st argv timeout check cleanup h =
      on_call st argv timeout check (limit_of st timeout cleanup) h

  slept-HoldsIn : (st : Executor) (ms : ℕ) (o : Option ℕ) → P st → HoldsIn P (slept host st ms o)
  unfolding slept
  slept-HoldsIn st ms none h = h
  slept-HoldsIn st ms (some left) h = elim (Bool-cases (ltb left ms)) [
    | inl e ↦ rw e h
    | inr e ↦ rw e (on_sleep st ms h)
  ]

  wait_until-HoldsIn :
      (fuel : ℕ) (st : Executor) (argv : Argv) (text : Text) (until : ℕ)
      → P st
      → HoldsIn P (wait_until host fuel st argv text until)
  unfolding wait_until
  wait_until-HoldsIn zero st argv text until h = h
  wait_until-HoldsIn (suc fuel) st argv text until h = elim (Bool-cases (ltb st.now until)) [
    | inr e ↦ rw e h
    | inl e ↦ rw e (
        then_with-HoldsIn P P _ _ (λ s k. k) (run_command-HoldsIn st argv _ false false h)
          (λ reply queried k. elim (Bool-cases (reply.succeeded && contains text reply.stdout)) [
            | inl f ↦ rw f k
            | inr f ↦ rw f (
                then_with-HoldsIn P P _ _ (λ s l. l) (healthy-HoldsIn P host queried k)
                  (λ ok checked l.
                    wait_until-HoldsIn fuel _ argv text until (on_sleep checked _ l)))
          ]))
  ]

  waited-HoldsIn :
      (st : Executor) (argv : Argv) (text : Text) (o : Option ℕ)
      → P st
      → HoldsIn P (waited host st argv text o)
  unfolding waited
  waited-HoldsIn st argv text none h = h
  waited-HoldsIn st argv text (some left) h = wait_until-HoldsIn _ st argv text _ h

  pub act-HoldsIn :
      (st : Executor) (step : Step) → StartsNothing step → P st → HoldsIn P (act host st step)
  unfolding act
  act-HoldsIn st (delay ms) other h = slept-HoldsIn st ms (remaining st ms) h
  act-HoldsIn st (start argv log required) other h = absurd other
  act-HoldsIn st (wait argv text) other h = waited-HoldsIn st argv text _ h
  act-HoldsIn st (run argv) other h =
      then_with-HoldsIn P P _ _ (λ s k. k) (run_command-HoldsIn st argv _ true false h)
        (λ reply after k. k)
  act-HoldsIn st (require argv text) other h =
      then_with-HoldsIn P P _ _ (λ s k. k) (run_command-HoldsIn st argv _ true false h)
        (λ reply after k. expected-HoldsIn P host text reply after k)

  module _
      (on_spawn : (st : Executor) (t : ℕ) (argv : Argv) (log : Text) (required can : Bool)
        → P st
        → HoldsIn P (spawned (elapse st t) argv log required can)) where
    started-HoldsIn :
        (st : Executor) (argv : Argv) (log : Text) (required : Bool) (o : Option ℕ)
        → P st
        → HoldsIn P (started host st argv log required o)
    unfolding started
    started-HoldsIn st argv log required none h = h
    started-HoldsIn st argv log required (some left) h = on_spawn st _ argv log required _ h

    every_act-HoldsIn : (st : Executor) (step : Step) → P st → HoldsIn P (act host st step)
    unfolding act
    every_act-HoldsIn st (start argv log required) h = started-HoldsIn st argv log required _ h
    every_act-HoldsIn st (delay ms) h = act-HoldsIn st (delay ms) tt h
    every_act-HoldsIn st (wait argv text) h = act-HoldsIn st (wait argv text) tt h
    every_act-HoldsIn st (run argv) h = act-HoldsIn st (run argv) tt h
    every_act-HoldsIn st (require argv text) h = act-HoldsIn st (require argv text) tt h

    execute-HoldsIn : (st : Executor) (step : Step) → P st → HoldsIn P (execute host st step)
    unfolding execute
    execute-HoldsIn st step h =
        then_with-HoldsIn P P _ _ (λ s k. k) (healthy-HoldsIn P host st h)
          (λ ok checked k. every_act-HoldsIn checked step k)

    execute_all-HoldsIn :
        (st : Executor) (steps : List Step) → P st → HoldsIn P (execute_all host st steps)
    unfolding execute_all
    execute_all-HoldsIn st [] h = healthy-HoldsIn P host st h
    execute_all-HoldsIn st (step ∷ steps) h =
        then_with-HoldsIn P P _ _ (λ s k. k) (execute-HoldsIn st step h)
          (λ ok after k. execute_all-HoldsIn after steps k)

    execute_first-HoldsIn :
        (st : Executor) (steps : List Step) → P st → HoldsIn P (execute_first host st steps)
    unfolding execute_first
    execute_first-HoldsIn st [] h = h
    execute_first-HoldsIn st (step ∷ steps) h = execute-HoldsIn st step h

    with_radios-HoldsIn :
        (st : Executor) (found : Option Phys) (c : ClassId) (p : Parameters) (digest : Text → Text)
        (seed : ℕ) (root : Text)
        → P st
        → HoldsIn P (with_radios host st found c p digest seed root)
    unfolding with_radios
    with_radios-HoldsIn st none c p digest seed root h = h
    with_radios-HoldsIn st (some phys) c p digest seed root h = execute_all-HoldsIn st _ h

    -- A whole run of the plan keeps the property.
    pub play-HoldsIn :
        (st : Executor) (found : Option Phys) (c : ClassId) (p : Parameters) (digest : Text → Text)
        (seed : ℕ) (root : Text)
        → P st
        → HoldsIn P (play host st found c p digest seed root)
    unfolding play
    play-HoldsIn st found c p digest seed root h =
        then_with-HoldsIn P P _ _ (λ s k. k) (execute_first-HoldsIn st _ h)
          (λ ok after k. with_radios-HoldsIn after found c p digest seed root k)
