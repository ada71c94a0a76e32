-- ===== src/Lab/Run/Executor.antt =====
-- `Executor` of lab/run_lab.py: its commands, its steps and the loop over a plan.
pub mod Preserve
pub mod Tracked
pub mod Started
pub mod Deadline
mod Examples
use airtrace.Prelude.{
  ℕ, zero, suc, ◌+◌, ◌-◌, ◌/◌, min, Bool, true, false, not, Option, none, some, List, [], ◌∷◌, ◌++◌,
  ◌&&◌, ◌||◌, leb, ltb, length, drop, if◌then◌else◌,
}
use airtrace.Text.Base.{Text, codes, contains}
use airtrace.Text.Order.{text_eq}
use airtrace.Triage.Schema.{ClassId}
use airtrace.Lab.Scenarios.{Parameters}
use airtrace.Lab.Run.Plan.{
  Argv, Step, run, start, wait, require, delay, Phys, command_plan, has_prefix, fourth, netns_add,
  load_module,
}
use airtrace.Lab.Run.State.{
  Outcome, completed, no_start, expired, Entry, command, out_of_time, background, Process, Executor,
  Host, Failure, past_deadline, command_failed, not_started, command_expired, process_exited,
  too_short, never_true, missing, no_radios, out_of_fuel, Result, returned, threw, Done, done,
  then_with,
}

-- The result of a command: whether its exit code is 0, and its output.
pub record Reply : Type 0 where
  pub succeeded : Bool
  pub stdout : Text

-- `remaining`: `none` is the `TimeoutError`.
unfoldable pub remaining : Executor → ℕ → Option ℕ
remaining st timeout =
    if leb st.deadline st.now then none else some (min timeout (st.deadline - st.now))

unfoldable pub limit_of : Executor → ℕ → Bool → Option ℕ
limit_of st timeout true = some timeout
limit_of st timeout false = remaining st timeout

-- What a command of exit code 0 changes.
unfoldable pub note_success : Executor → Argv → Executor
note_success st argv = record st {
  namespaces =
      if has_prefix netns_add argv then st.namespaces ++ fourth argv ∷ [] else st.namespaces;
  loaded_module = st.loaded_module || has_prefix load_module argv;
}

unfoldable pub add_entry : Executor → Entry → Executor
add_entry st entry = record st { records = st.records ++ entry ∷ [] }

-- `if check and result.returncode != 0: raise ...`
unfoldable pub checked_reply : Executor → Argv → Bool → Text → Result Reply
checked_reply st argv true out = threw (command_failed argv) st
checked_reply st argv false out = returned (record { succeeded = false; stdout = out }) st

-- The outcome of a command, in the executor after it.
unfoldable pub conclude : Executor → Argv → Bool → Outcome → Result Reply
conclude st argv check (completed true out) =
    returned (record { succeeded = true; stdout = out }) (note_success st argv)
conclude st argv check (completed false out) = checked_reply st argv check out
conclude st argv check (no_start e) = threw not_started st
conclude st argv check expired = threw command_expired st

unfoldable pub sleep : Host → Executor → ℕ → Executor
sleep host st ms = record st { now = st.now + ms + host.lag st.now }

-- `healthy`: the first required process that is not alive; a stopped capture does not count.
unfoldable pub first_exited : Host → ℕ → Bool → List Process → Option Argv
first_exited host now closed [] = none
first_exited host now closed (p ∷ ps) =
    let later = first_exited host now closed ps in
    if closed && text_eq p.log (codes "tcpdump.log")
    then later
    else if p.required && not (host.is_alive now p.number)
    then some p.argv
    else later

unfoldable pub healthy_if : Executor → Option Argv → Result Done
healthy_if st none = returned done st
healthy_if st (some argv) = threw (process_exited argv) st

unfoldable pub healthy : Host → Executor → Result Done
healthy host st = healthy_if st (first_exited host st.now st.capture_closed st.processes)

-- The call of a command, with the time that it is given.
unfoldable pub invoke : Host → Executor → Argv → ℕ → Bool → Option ℕ → Result Reply
invoke host st argv timeout check none =
    threw past_deadline (add_entry st (out_of_time argv timeout))
invoke host st argv timeout check (some limit) =
    let result = host.outcome st.calls argv limit in
    let after = record st {
      now = st.now + host.elapsed st.calls argv limit;
      calls = st.calls + 1;
    } in
    conclude (add_entry after (command argv timeout result)) argv check result

-- `run`
unfoldable pub run_command : Host → Executor → Argv → ℕ → Bool → Bool → Result Reply
run_command host st argv timeout check cleanup =
    invoke host st argv timeout check (limit_of st timeout cleanup)

-- The tests of `execute` on what it finds.
unfoldable pub slept : Host → Executor → ℕ → Option ℕ → Result Done
slept host st ms none = threw past_deadline st
slept host st ms (some left) =
    if ltb left ms then threw too_short st else returned done (sleep host st ms)

-- Time passes.
unfoldable pub elapse : Executor → ℕ → Executor
elapse st t = record st { now = st.now + t }

unfoldable pub spawned : Executor → Argv → Text → Bool → Bool → Result Done
spawned st argv log required false = threw not_started st
spawned st argv log required true = returned done (
    add_entry
      (record st {
        processes =
            st.processes
            ++ (record {
              number = length st.processes;
              argv = argv;
              log = log;
              required = required;
            })
              ∷ [];
      })
      (background argv log))

unfoldable pub started : Host → Executor → Argv → Text → Bool → Option ℕ → Result Done
started host st argv log required none = threw past_deadline st
started host st argv log required (some left) =
    let n = length st.processes in
    spawned (elapse st (host.start_time n argv)) argv log required (host.can_start n argv)

unfoldable pub expected : Text → Reply → Executor → Result Done
expected text reply st =
    if contains text reply.stdout then returned done st else threw (missing text) st

-- The loop of a wait, up to its own deadline.
unfoldable pub wait_until : Host → ℕ → Executor → Argv → Text → ℕ → Result Done
wait_until host zero st argv text until = threw out_of_fuel st
wait_until host (suc fuel) st argv text until =
    if ltb st.now until
    then then_with (run_command host st argv (min 3000 (until - st.now)) false false)
        (λ reply queried.
          if reply.succeeded && contains text reply.stdout
          then returned done queried
          else then_with (healthy host queried) (λ ok checked.
            wait_until host fuel (sleep host checked (min 500 (until - checked.now))) argv text
              until))
    else threw (never_true text) st

unfoldable pub waited : Host → Executor → Argv → Text → Option ℕ → Result Done
waited host st argv text none = threw past_deadline st
waited host st argv text (some left) =
    wait_until host (suc (left / 500 + 1)) st argv text (st.now + left)

abbrev pub command_timeout : ℕ
command_timeout = 10000

abbrev pub connect_timeout : ℕ
connect_timeout = 30000

-- What a step does, once the processes are found healthy.
unfoldable pub act : Host → Executor → Step → Result Done
act host st (delay ms) = slept host st ms (remaining st ms)
act host st (start argv log required) = started host st argv log required (remaining st 1000)
act host st (wait argv text) = waited host st argv text (remaining st connect_timeout)
act host st (run argv) =
    then_with (run_command host st argv command_timeout true false)
      (λ reply after. returned done after)
act host st (require argv text) =
    then_with (run_command host st argv command_timeout true false) (expected text)

unfoldable pub execute : Host → Executor → Step → Result Done
execute host st step = then_with (healthy host st) (λ ok checked. act host checked step)

-- The loop over the steps, with the last check.
unfoldable pub execute_all : Host → Executor → List Step → Result Done
execute_all host st [] = healthy host st
execute_all host st (step ∷ steps) =
    then_with (execute host st step) (λ ok after. execute_all host after steps)

unfoldable pub execute_first : Host → Executor → List Step → Result Done
execute_first host st [] = returned done st
execute_first host st (step ∷ steps) = execute host st step

-- `discover_phys`, and the rest of the plan for the radios found.
unfoldable pub with_radios :
    Host → Executor → Option Phys → ClassId → Parameters → (Text → Text) → ℕ → Text → Result Done
with_radios host st none c p digest seed root = threw no_radios st
with_radios host st (some phys) c p digest seed root =
    execute_all host st (drop 1 (command_plan c p digest seed phys root).0)

abbrev pub default_phys : Phys
default_phys = record { first = codes "phy0"; second = codes "phy1"; third = codes "phy2" }

-- The `try` block of `run_bundle`.
unfoldable pub play :
    Host → Executor → Option Phys → ClassId → Parameters → (Text → Text) → ℕ → Text → Result Done
play host st found c p digest seed root =
    then_with (execute_first host st (command_plan c p digest seed default_phys root).0)
      (λ ok after. with_radios host after found c p digest seed root)
