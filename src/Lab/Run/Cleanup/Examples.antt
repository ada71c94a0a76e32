-- ===== src/Lab/Run/Cleanup/Examples.antt =====
-- An executor that made one namespace and started one process, and its cleanup.
use airtrace.Prelude.{◌≡◌, refl, true, false, [], ◌∷◌, ◌++◌, All}
use airtrace.Text.Base.{codes}
use airtrace.Text.Order.{text_eq}
use airtrace.Lab.Run.Plan.{Namespaces, cleanup_plan, has_prefix, fourth}
use airtrace.Lab.Run.State.{completed, Entry, command, Executor, Host, Process}
use airtrace.Lab.Run.Executor.{
  run_command, invoke, limit_of, add_entry, conclude, checked_reply, note_success,
}
use airtrace.Lab.Run.Executor.Tracked.{added_by, namespaces_added, loads, module_loaded, IsTracked}
use airtrace.Lab.Run.Executor.{elapse}
use airtrace.Lab.Run.Cleanup.{
  term, kill, Endings, by_kill, by_term, stop, trouble_of, finish_recorder, note_stopped, reversed,
  end_processes, has_text, is_due, trouble_in, executor_of, undo, cleanup,
}
use airtrace.Lab.Run.Cleanup.Undone.{ran, asked_for, cleanup-asked_for}
use airtrace.Lab.Run.Cleanup.Ended.{IsOver, cleanup-IsOver}

abbrev works : Host
works = record {
  outcome = λ n argv limit. completed true [];
  elapsed = λ n argv limit. 20;
  can_start = λ n argv. true;
  is_alive = λ t n. true;
  start_time = λ n argv. 2;
  lag = λ t. 1;
}

abbrev places : Namespaces
places = record { ap = codes "a"; station = codes "s"; occupant = codes "o" }

abbrev added_one : Entry
added_one =
    command (codes "ip" ∷ codes "netns" ∷ codes "add" ∷ codes "s" ∷ []) 10000 (completed true [])

abbrev one_process : Process
one_process = record { number = 0; argv = codes "sleep" ∷ []; log = codes "x.log"; required = true }

abbrev at_work : Executor
at_work = record {
  now = 7;
  deadline = 90;
  calls = 1;
  processes = one_process ∷ [];
  records = added_one ∷ [];
  namespaces = codes "s" ∷ [];
  loaded_module = false;
  capture_closed = true;
}

-- The process exits after SIGKILL only.
abbrev stubborn : Endings
stubborn = record {
  unsent = λ n s. false;
  exits = λ n s. elim s [ term ↦ false | kill ↦ true ];
  unfinished = λ n. false;
  takes = λ n. 40;
}

runs : Unit {0}
unfolding has_prefix fourth text_eq added_by namespaces_added loads module_loaded run_command invoke
    limit_of add_entry conclude checked_reply note_success by_kill by_term stop trouble_of
    finish_recorder note_stopped reversed end_processes has_text is_due trouble_in executor_of
    elapse undo cleanup cleanup_plan
runs = tt

at_work-IsTracked : IsTracked at_work
unfolding runs
at_work-IsTracked = (refl, refl)

cleanup-asked_for_example :
    ran (cleanup works stubborn at_work (cleanup_plan places)).1.records
    ≡ ran at_work.records ++ asked_for places at_work.records
cleanup-asked_for_example = cleanup-asked_for works stubborn at_work places at_work-IsTracked

no_trouble : (cleanup works stubborn at_work (cleanup_plan places)).0 ≡ []
unfolding runs
no_trouble = refl

cleanup-IsOver_example :
    All
      (IsOver works stubborn at_work.now
        (end_processes works stubborn at_work (reversed at_work.processes)).1.now)
      at_work.processes
cleanup-IsOver_example = cleanup-IsOver works stubborn at_work (cleanup_plan places) no_trouble
