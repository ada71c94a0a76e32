-- ===== src/Lab/Run/State.antt =====
-- The state of `Executor` in lab/run_lab.py, and the ways in which one of its methods ends. Times are
-- milliseconds of the monotonic clock.
use airtrace.Prelude.{ℕ, ◌+◌, Bool, false, List, []}
use airtrace.Text.Base.{Text}
use airtrace.Lab.Run.Plan.{Argv}

-- What a command does: it completes, with its exit code being 0 or not and its output; it cannot be
-- started; or its time runs out.
pub data Outcome : Type 0 where
  completed : Bool → Text → Outcome
  no_start : Text → Outcome
  expired : Outcome

-- An entry of `records`: a command with its timeout and its result, where it came to run; a background
-- process; a process that was stopped.
pub data Entry : Type 0 where
  command : Argv → ℕ → Outcome → Entry
  out_of_time : Argv → ℕ → Entry
  background : Argv → Text → Entry
  stopped : Argv → Entry

-- A process, by its number, with the fields of its step.
pub record Process : Type 0 where
  pub number : ℕ
  pub argv : Argv
  pub log : Text
  pub required : Bool

-- The attributes of an `Executor`, with the time of the clock and the number of commands run; the set of
-- namespaces is kept as a list, of which only the members count.
pub record Executor : Type 0 where
  pub now : ℕ
  pub deadline : ℕ
  pub calls : ℕ
  pub processes : List Process
  pub records : List Entry
  pub namespaces : List Text
  pub loaded_module : Bool
  pub capture_closed : Bool

-- The host: what a command does and how long it takes, whether a process can be started, until when a
-- process lives, how long its start takes, and how much longer than asked a sleep takes.
pub record Host : Type 0 where
  pub outcome : ℕ → Argv → ℕ → Outcome
  pub elapsed : ℕ → Argv → ℕ → ℕ
  pub can_start : ℕ → Argv → Bool
  pub start_time : ℕ → Argv → ℕ
  pub is_alive : ℕ → ℕ → Bool
  pub lag : ℕ → ℕ

-- The exceptions of the methods.
pub data Failure : Type 0 where
  past_deadline : Failure
  command_failed : Argv → Failure
  not_started : Failure
  command_expired : Failure
  process_exited : Argv → Failure
  too_short : Failure
  never_true : Text → Failure
  missing : Text → Failure
  no_radios : Failure
  out_of_fuel : Failure

pub data Result {ℓ} (A : Type ℓ) : Type ℓ where
  returned : A → Executor → Result A
  threw : Failure → Executor → Result A

-- What a method gives back: nothing.
pub data Done : Type 0 where
  done : Done

-- One call after another: an exception is passed on.
unfoldable pub then_with {ℓ κ} :
    {A : Type ℓ} {B : Type κ} → Result A → (A → Executor → Result B) → Result B
then_with (returned a st) next = next a st
then_with (threw e st) next = threw e st

-- `Executor.__init__`, at a time.
abbrev pub run_timeout : ℕ
run_timeout = 150000

unfoldable pub fresh : ℕ → Executor
fresh now = record {
  now = now;
  deadline = now + run_timeout;
  calls = 0;
  processes = [];
  records = [];
  namespaces = [];
  loaded_module = false;
  capture_closed = false;
}
