-- ===== src/Lab/Run/Cleanup.antt =====
-- `Executor.cleanup` of lab/run_lab.py: the end of the processes, and the commands that undo a plan.
pub mod Undone
pub mod Ended
mod Examples
use airtrace.Prelude.{
  ℕ, ◌+◌, Bool, true, false, not, Option, none, some, List, [], ◌∷◌, ◌++◌, ◌&&◌, ◌||◌,
  if◌then◌else◌,
}
use airtrace.Text.Base.{Text, codes}
use airtrace.Text.Order.{text_eq}
use airtrace.Lab.Run.Plan.{Argv, has_prefix, fourth, netns_delete}
use airtrace.Lab.Run.State.{
  Entry, stopped, Process, Executor, Host, Failure, Result, returned, threw,
}
use airtrace.Lab.Run.Executor.{Reply, add_entry, elapse, run_command, command_timeout}

pub data Signal : Type 0 where
  term kill : Signal

-- How the processes end: whether a signal cannot be sent, whether the process exits within three seconds
-- of it, whether its recorder fails to finish, and how long all this takes.
pub record Endings : Type 0 where
  pub unsent : ℕ → Signal → Bool
  pub exits : ℕ → Signal → Bool
  pub unfinished : ℕ → Bool
  pub takes : ℕ → ℕ

-- An error of the cleanup: a signal that was not sent, a process that survived, a recorder, a command.
pub data Trouble : Type 0 where
  no_signal : ℕ → Signal → Trouble
  survived : ℕ → Trouble
  recorder : ℕ → Trouble
  command_trouble : Failure → Trouble

-- `os.killpg(..., signal.SIGKILL)` and the last wait.
unfoldable pub by_kill : Endings → ℕ → Option Trouble
by_kill e n =
    if e.unsent n kill
    then some (no_signal n kill)
    else if e.exits n kill
    then none
    else some (survived n)

-- `os.killpg(..., signal.SIGTERM)` and what follows.
unfoldable pub by_term : Endings → ℕ → Option Trouble
by_term e n =
    let killed = by_kill e n in
    if e.unsent n term then some (no_signal n term) else if e.exits n term then none else killed

-- The `try` block for one process.
unfoldable pub stop : Endings → Bool → ℕ → Option Trouble
stop e true n = by_term e n
stop e false n = none

unfoldable pub trouble_of : Option Trouble → List Trouble
trouble_of none = []
trouble_of (some t) = t ∷ []

-- `recorder.finish()`
unfoldable pub finish_recorder : Endings → ℕ → List Trouble
finish_recorder e n = if e.unfinished n then recorder n ∷ [] else []

unfoldable pub note_stopped : Executor → Argv → Option Trouble → Executor
note_stopped st argv none = add_entry st (stopped argv)
note_stopped st argv (some t) = st

unfoldable pub reversed : List Process → List Process
reversed [] = []
reversed (p ∷ ps) = reversed ps ++ p ∷ []

-- The loop over the processes, the last one first.
unfoldable pub end_processes : Host → Endings → Executor → List Process → List Trouble × Executor
end_processes host e st [] = ([], st)
end_processes host e st (p ∷ ps) =
    let outcome = stop e (host.is_alive st.now p.number) p.number in
    let later = elapse (note_stopped st p.argv outcome) (e.takes p.number) in
    let rest = end_processes host e later ps in
    (trouble_of outcome ++ (finish_recorder e p.number ++ rest.0), rest.1)

unfoldable pub has_text : Text → List Text → Bool
has_text t [] = false
has_text t (x ∷ xs) = text_eq t x || has_text t xs

-- Whether a command of the cleanup is not passed over.
unfoldable pub is_due : List Text → Bool → Argv → Bool
is_due namespaces loaded argv =
    not (has_prefix netns_delete argv && not (has_text (fourth argv) namespaces))
    && not (has_prefix (codes "modprobe" ∷ []) argv && not loaded)

unfoldable pub trouble_in : Result Reply → List Trouble
trouble_in (returned reply st) = []
trouble_in (threw e st) = command_trouble e ∷ []

unfoldable pub executor_of {ℓ} : {A : Type ℓ} → Result A → Executor
executor_of (returned a st) = st
executor_of (threw e st) = st

-- The loop over the commands: an error does not end it.
unfoldable pub undo : Host → Executor → List Argv → List Trouble × Executor
undo host st [] = ([], st)
undo host st (argv ∷ rest) =
    let ran = run_command host st argv command_timeout true true in
    let after = undo host (executor_of ran) rest in
    let skipped = undo host st rest in
    if is_due st.namespaces st.loaded_module argv
    then (trouble_in ran ++ after.0, after.1)
    else skipped

-- `cleanup`
unfoldable pub cleanup : Host → Endings → Executor → List Argv → List Trouble × Executor
cleanup host e st commands =
    let ended = end_processes host e st (reversed st.processes) in
    let undone = undo host ended.1 commands in (ended.0 ++ undone.0, undone.1)
