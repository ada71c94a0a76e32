-- ===== src/Lab/Run/Executor/Started.antt =====
-- The processes that a run of a plan starts, in lab/run_lab.py.
use airtrace.Prelude.{
  ℕ, ◌≡◌, refl, ap, sym, subst, ◌∙◌, Bool, true, false, Option, none, some, List, [], ◌∷◌, ◌++◌,
  drop, append-nil, append_assoc,
}
use airtrace.Text.Base.{Text}
use airtrace.Triage.Schema.{ClassId}
use airtrace.Lab.Scenarios.{Parameters}
use airtrace.Lab.Run.Plan.{
  Argv, Step, run, start, wait, require, delay, Phys, command_plan, plan_steps, setup_steps,
}
use airtrace.Lab.Run.Plan.Control.{started_logs, starting_order, plan_order}
use airtrace.Lab.Run.State.{
  Outcome, completed, no_start, expired, Process, Executor, Host, Result, returned, threw, Done,
  then_with, fresh,
}
use airtrace.Lab.Run.Executor.{
  note_success, add_entry, checked_reply, conclude, sleep, healthy, invoke, elapse, spawned,
  started, remaining, act, execute, execute_all, execute_first, with_radios, play,
}
use airtrace.Lab.Run.Executor.Preserve.{HoldsIn, healthy-HoldsIn, StartsNothing, act-HoldsIn}

abbrev pub logs_of : List Process → List Text
logs_of [] = []
logs_of (p ∷ ps) = p.log ∷ logs_of ps

logs_of-append :
    (ps : List Process) (p : Process) → logs_of (ps ++ p ∷ []) ≡ logs_of ps ++ p.log ∷ []
logs_of-append [] p = refl
logs_of-append (q ∷ ps) p = ap (◌∷◌ q.log) (logs_of-append ps p)

-- The processes have these logs in this order; after an exception, they are the first of them.
abbrev pub HasStarted : List Text → Result Done → Type 0
HasStarted logs (returned a st) = logs_of st.processes ≡ logs
HasStarted logs (threw e st) = (rest : List Text) × (logs_of st.processes ++ rest ≡ logs)

abbrev Keeps : List Process → Executor → Type 0
Keeps ps st = st.processes ≡ ps

module _ (host : Host) (ps : List Process) where
  conclude-Keeps :
      (st : Executor) (argv : Argv) (check : Bool) (result : Outcome)
      → Keeps ps st
      → HoldsIn (Keeps ps) (conclude st argv check result)
  unfolding conclude note_success checked_reply
  conclude-Keeps st argv check (completed true out) k = k
  conclude-Keeps st argv true (completed false out) k = k
  conclude-Keeps st argv false (completed false out) k = k
  conclude-Keeps st argv check (no_start e) k = k
  conclude-Keeps st argv check expired k = k

  invoke-Keeps :
      (st : Executor) (argv : Argv) (timeout : ℕ) (check : Bool) (limit : Option ℕ)
      → Keeps ps st
      → HoldsIn (Keeps ps) (invoke host st argv timeout check limit)
  unfolding invoke add_entry
  invoke-Keeps st argv timeout check none k = k
  invoke-Keeps st argv timeout check (some limit) k = conclude-Keeps _ argv check _ k

  sleep-Keeps : (st : Executor) (ms : ℕ) → Keeps ps st → Keeps ps (sleep host st ms)
  unfolding sleep
  sleep-Keeps st ms k = k

  act-Keeps :
      (st : Executor) (step : Step)
      → StartsNothing step
      → Keeps ps st
      → HoldsIn (Keeps ps) (act host st step)
  act-Keeps st step other k = act-HoldsIn (Keeps ps) host invoke-Keeps sleep-Keeps st step other k

-- A method that keeps the processes has started what was started before.
kept-HasStarted :
    (ps : List Process) (logs : List Text) (r : Result Done)
    → HoldsIn (Keeps ps) r
    → logs_of ps ≡ logs
    → HasStarted logs r
kept-HasStarted ps logs (returned a st) k e = ap logs_of k ∙ e
kept-HasStarted ps logs (threw x st) k e = ([], append-nil _ ∙ ap logs_of k ∙ e)

then_with-HasStarted :
    (r : Result Done) (next : Done → Executor → Result Done) (before after : List Text)
    → HasStarted before r
    → ((a : Done) (st : Executor)
        → logs_of st.processes ≡ before
        → HasStarted (before ++ after) (next a st))
    → HasStarted (before ++ after) (then_with r next)
unfolding then_with
then_with-HasStarted (returned a st) next before after h k = k a st h
then_with-HasStarted (threw e st) next before after (rest, h) k =
    (rest ++ after, sym (append_assoc _ rest after) ∙ ap (λ (l : List Text). l ++ after) h)

module _ (host : Host) (before : List Text) where
  spawned-HasStarted :
      (st : Executor) (argv : Argv) (log : Text) (required can : Bool)
      → logs_of st.processes ≡ before
      → HasStarted (before ++ log ∷ []) (spawned st argv log required can)
  unfolding spawned add_entry
  spawned-HasStarted st argv log required true e =
      logs_of-append st.processes _ ∙ ap (λ (l : List Text). l ++ log ∷ []) e
  spawned-HasStarted st argv log required false e = (log ∷ [], rw e refl)

  started-HasStarted :
      (st : Executor) (argv : Argv) (log : Text) (required : Bool) (o : Option ℕ)
      → logs_of st.processes ≡ before
      → HasStarted (before ++ log ∷ []) (started host st argv log required o)
  unfolding started elapse
  started-HasStarted st argv log required none e = (log ∷ [], rw e refl)
  started-HasStarted st argv log required (some left) e =
      spawned-HasStarted (elapse st _) argv log required _ e

  other-HasStarted :
      (st : Executor) (step : Step)
      → StartsNothing step
      → logs_of st.processes ≡ before
      → HasStarted (before ++ []) (act host st step)
  other-HasStarted st step other e =
      kept-HasStarted st.processes _ _ (act-Keeps host st.processes st step other refl)
        (e ∙ sym (append-nil before))

  act-HasStarted :
      (st : Executor) (step : Step)
      → logs_of st.processes ≡ before
      → HasStarted (before ++ started_logs (step ∷ [])) (act host st step)
  unfolding act
  act-HasStarted st (start argv log required) e =
      started-HasStarted st argv log required (remaining st 1000) e
  act-HasStarted st (run argv) e = other-HasStarted st (run argv) tt e
  act-HasStarted st (wait argv text) e = other-HasStarted st (wait argv text) tt e
  act-HasStarted st (require argv text) e = other-HasStarted st (require argv text) tt e
  act-HasStarted st (delay ms) e = other-HasStarted st (delay ms) tt e

  healthy-HasStarted :
      (st : Executor) → logs_of st.processes ≡ before → HasStarted before (healthy host st)
  healthy-HasStarted st e =
      kept-HasStarted st.processes before _ (healthy-HoldsIn (Keeps st.processes) host st refl) e

started_logs-cons :
    (step : Step) (steps : List Step)
    → started_logs (step ∷ steps) ≡ started_logs (step ∷ []) ++ started_logs steps
started_logs-cons (start argv log required) steps = refl
started_logs-cons (run argv) steps = refl
started_logs-cons (wait argv text) steps = refl
started_logs-cons (require argv text) steps = refl
started_logs-cons (delay ms) steps = refl

-- The first step starts nothing.
rest_of_plan :
    (c : ClassId) (p : Parameters) (digest : Text → Text) (seed : ℕ) (phys : Phys) (root : Text)
    → started_logs (drop 1 (command_plan c p digest seed phys root).0) ≡ starting_order c
unfolding command_plan plan_steps setup_steps
rest_of_plan c p digest seed phys root = (plan_order c p digest seed phys root).0

module _ (host : Host) where
  execute-HasStarted :
      (before : List Text) (st : Executor) (step : Step)
      → logs_of st.processes ≡ before
      → HasStarted (before ++ started_logs (step ∷ [])) (execute host st step)
  unfolding execute
  execute-HasStarted before st step e =
      then_with-HasStarted _ _ before _ (healthy-HasStarted host before st e)
        (λ a checked k. act-HasStarted host before checked step k)

  execute_all-HasStarted :
      (before : List Text) (st : Executor) (steps : List Step)
      → logs_of st.processes ≡ before
      → HasStarted (before ++ started_logs steps) (execute_all host st steps)
  unfolding execute_all
  execute_all-HasStarted before st [] e =
      subst (λ (l : List Text). HasStarted l (healthy host st)) (sym (append-nil before))
        (healthy-HasStarted host before st e)
  execute_all-HasStarted before st (step ∷ steps) e =
      let one = started_logs (step ∷ []) in
      subst (λ (l : List Text). HasStarted l (execute_all host st (step ∷ steps)))
        (append_assoc before one (started_logs steps)
          ∙ ap (◌++◌ before) (sym (started_logs-cons step steps)))
        (then_with-HasStarted (execute host st step) _ (before ++ one) (started_logs steps)
          (execute-HasStarted before st step e)
          (λ a after k. execute_all-HasStarted (before ++ one) after steps k))

  radios-HasStarted :
      (st : Executor) (found : Option Phys) (c : ClassId) (p : Parameters) (digest : Text → Text)
      (seed : ℕ) (root : Text)
      → logs_of st.processes ≡ []
      → HasStarted (starting_order c) (with_radios host st found c p digest seed root)
  unfolding with_radios
  radios-HasStarted st none c p digest seed root e = (starting_order c, rw e refl)
  radios-HasStarted st (some phys) c p digest seed root e =
      subst (λ (l : List Text). HasStarted l (with_radios host st (some phys) c p digest seed root))
        (rest_of_plan c p digest seed phys root) (execute_all-HasStarted [] st _ e)

-- A run of the plan that ends without an exception has started the processes of its class, each once
-- and in the order of the class; one that ends with an exception has started the first of them.
pub play-HasStarted :
    (host : Host) (now : ℕ) (found : Option Phys) (c : ClassId) (p : Parameters)
    (digest : Text → Text) (seed : ℕ) (root : Text)
    → HasStarted (starting_order c) (play host (fresh now) found c p digest seed root)
unfolding play fresh execute_first command_plan plan_steps setup_steps
play-HasStarted host now found c p digest seed root =
    then_with-HasStarted _ _ [] (starting_order c) (execute-HasStarted host [] (fresh now) _ refl)
      (λ a after k. radios-HasStarted host after found c p digest seed root k)
