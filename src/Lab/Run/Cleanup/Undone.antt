-- ===== src/Lab/Run/Cleanup/Undone.antt =====
-- What the cleanup of lab/run_lab.py undoes: what the records of the run show as made.
use airtrace.Prelude.{
  ℕ, ◌+◌, ◌≡◌, refl, ap, ap₂, sym, ◌∙◌, Bool, true, false, not, Option, none, some, List, [], ◌∷◌,
  ◌++◌, ◌&&◌, ◌||◌, append-nil, append_assoc, Bool-cases, inl, inr, filter_by, keep_if,
  if◌then◌else◌, All,
}
use airtrace.Text.Base.{Text, codes}
use airtrace.Text.Order.{text_eq}
use airtrace.Lab.Run.Plan.{
  Argv, Namespaces, cleanup_plan, has_prefix, fourth, netns_add, load_module,
}
use airtrace.Lab.Run.State.{
  Outcome, completed, no_start, expired, Entry, command, Process, Executor, Host,
}
use airtrace.Lab.Run.Executor.{
  limit_of, add_entry, elapse, note_success, checked_reply, conclude, invoke, run_command,
  command_timeout,
}
use airtrace.Lab.Run.Executor.Tracked.{namespaces_added, module_loaded, IsTracked}
use airtrace.Lab.Run.Cleanup.{
  Trouble, Endings, stop, note_stopped, reversed, end_processes, has_text, is_due, executor_of,
  undo, cleanup,
}

-- The commands that came to run, by the records.
unfoldable pub ran_by : Entry → List Argv
ran_by (command argv timeout result) = argv ∷ []
ran_by _ = []

unfoldable pub ran : List Entry → List Argv
ran [] = []
ran (e ∷ es) = ran_by e ++ ran es

ran-append : (es : List Entry) (e : Entry) → ran (es ++ e ∷ []) ≡ ran es ++ ran_by e
unfolding ran
ran-append [] e = append-nil (ran_by e)
ran-append (f ∷ es) e =
    ap (◌++◌ (ran_by f)) (ran-append es e) ∙ sym (append_assoc (ran_by f) (ran es) (ran_by e))

-- A command that makes nothing: it adds no namespace and does not load the module.
abbrev MakesNothing : Argv → Type 0
MakesNothing argv = (has_prefix netns_add argv ≡ false) × (has_prefix load_module argv ≡ false)

-- One executor follows another by running some commands and making nothing.
abbrev Follows : Executor → List Argv → Executor → Type 0
Follows st argvs after =
    (ran after.records ≡ ran st.records ++ argvs)
    × (after.namespaces ≡ st.namespaces)
    × (after.loaded_module ≡ st.loaded_module)

Follows-none : (st : Executor) → Follows st [] st
Follows-none st = (sym (append-nil _), refl, refl)

Follows-append :
    (a b c : Executor) (xs ys : List Argv)
    → Follows a xs b
    → Follows b ys c
    → Follows a (xs ++ ys) c
Follows-append a b c xs ys (r, n, l) (s, m, k) =
    (s ∙ ap (λ (z : List Argv). z ++ ys) r ∙ append_assoc _ xs ys, m ∙ n, k ∙ l)

module _ (host : Host) where
  conclude-Follows :
      (st : Executor) (argv : Argv) (timeout : ℕ) (result : Outcome)
      → MakesNothing argv
      → Follows st
          (argv ∷ [])
          (executor_of (conclude (add_entry st (command argv timeout result)) argv true result))
  unfolding conclude add_entry note_success checked_reply executor_of ran_by
  conclude-Follows st argv timeout (completed true out) (a, l) =
      (ran-append st.records _, rw a refl, rw l (or_false st.loaded_module))
    where
      or_false : (b : Bool) → (b || false) ≡ b
      or_false true = refl
      or_false false = refl
  conclude-Follows st argv timeout (completed false out) q = (ran-append st.records _, refl, refl)
  conclude-Follows st argv timeout (no_start e) q = (ran-append st.records _, refl, refl)
  conclude-Follows st argv timeout expired q = (ran-append st.records _, refl, refl)

  run-Follows :
      (st : Executor) (argv : Argv)
      → MakesNothing argv
      → Follows st (argv ∷ []) (executor_of (run_command host st argv command_timeout true true))
  unfolding run_command invoke limit_of add_entry
  run-Follows st argv q =
      conclude-Follows
        (record st {
          now = st.now + host.elapsed st.calls argv command_timeout;
          calls = st.calls + 1;
        })
        argv command_timeout (host.outcome st.calls argv command_timeout) q

  noted-Follows :
      (st : Executor) (argv : Argv) (o : Option Trouble) → Follows st [] (note_stopped st argv o)
  unfolding note_stopped add_entry ran_by
  noted-Follows st argv none = (ran-append st.records _, refl, refl)
  noted-Follows st argv (some t) = Follows-none st

  -- The ends of the processes run no command.
  end_processes-Follows :
      (e : Endings) (ps : List Process) (st : Executor)
      → Follows st [] (end_processes host e st ps).1
  unfolding end_processes elapse
  end_processes-Follows e [] st = Follows-none st
  end_processes-Follows e (p ∷ ps) st =
      let outcome = stop e (host.is_alive st.now p.number) p.number in
      let after = elapse (note_stopped st p.argv outcome) (e.takes p.number) in
      Follows-append st after (end_processes host e after ps).1 [] []
        (noted-Follows st p.argv outcome) (end_processes-Follows e ps after)

  -- Every command that is due is run, whatever becomes of the ones before it.
  undo-Follows :
      (ns : List Text) (loaded : Bool) (commands : List Argv) (st : Executor)
      → st.namespaces ≡ ns
      → st.loaded_module ≡ loaded
      → All MakesNothing commands
      → Follows st (filter_by (is_due ns loaded) commands) (undo host st commands).1
  unfolding undo
  undo-Follows ns loaded [] st n l q = Follows-none st
  undo-Follows ns loaded (argv ∷ rest) st n l (q, qs) =
      let ran_one = executor_of (run_command host st argv command_timeout true true) in
      let one = run-Follows st argv q in
      let same = ap₂ (λ (x : List Text) (y : Bool). is_due x y argv) n l in
      elim (Bool-cases (is_due ns loaded argv)) [
        | inl e ↦ rw e (
            rw (same ∙ e) (
              Follows-append st ran_one (undo host ran_one rest).1 (argv ∷ [])
                (filter_by (is_due ns loaded) rest) one
                (undo-Follows ns loaded rest ran_one (one.1 ∙ n) (one.2 ∙ l) qs)))
        | inr e ↦ rw e (rw (same ∙ e) (undo-Follows ns loaded rest st n l qs))
      ]

  cleanup-Follows :
      (e : Endings) (st : Executor) (commands : List Argv)
      → All MakesNothing commands
      → Follows st
          (filter_by (is_due st.namespaces st.loaded_module) commands)
          (cleanup host e st commands).1
  unfolding cleanup
  cleanup-Follows e st commands q =
      let ended = end_processes-Follows e (reversed st.processes) st in
      let after = (end_processes host e st (reversed st.processes)).1 in
      Follows-append st after (undo host after commands).1 []
        (filter_by (is_due st.namespaces st.loaded_module) commands) ended
        (undo-Follows st.namespaces st.loaded_module commands after ended.1 ended.2 q)

-- What the records of a run ask the cleanup for: the namespaces of the plan that were added, the last
-- one first, and the module if it was loaded.
deletion : List Entry → Text → List Argv
deletion es n =
    if has_text n (namespaces_added es)
    then (codes "ip" ∷ codes "netns" ∷ codes "delete" ∷ n ∷ []) ∷ []
    else []

removal : List Entry → List Argv
removal es =
    if module_loaded es
    then (codes "modprobe" ∷ codes "-r" ∷ codes "mac80211_hwsim" ∷ []) ∷ []
    else []

unfoldable pub asked_for : Namespaces → List Entry → List Argv
unfolding deletion removal
asked_for ns es =
    deletion es ns.occupant ++ (deletion es ns.station ++ (deletion es ns.ap ++ removal es))

cleanup_plan-MakesNothing : (ns : Namespaces) → All MakesNothing (cleanup_plan ns)
unfolding cleanup_plan has_prefix text_eq
cleanup_plan-MakesNothing ns = ((refl, refl), ((refl, refl), ((refl, refl), ((refl, refl), tt))))

deleted :
    (b : Bool) (x : Argv) (rest tail : List Argv)
    → rest ≡ tail
    → keep_if (not (not b) && true) x rest ≡ (if b then x ∷ [] else []) ++ tail
deleted true x rest tail e = ap (◌∷◌ x) e
deleted false x rest tail e = e

removed : (b : Bool) (x : Argv) → keep_if (not (not b)) x [] ≡ (if b then x ∷ [] else [])
removed true x = refl
removed false x = refl

due_of_plan :
    (ns : Namespaces) (es : List Entry)
    → filter_by (is_due (namespaces_added es) (module_loaded es)) (cleanup_plan ns)
      ≡ asked_for ns es
unfolding cleanup_plan is_due asked_for deletion removal has_prefix fourth text_eq
due_of_plan ns es =
    let delete = λ (n : Text). codes "ip" ∷ codes "netns" ∷ codes "delete" ∷ n ∷ [] in
    let known = λ (n : Text). has_text n (namespaces_added es) in
    deleted (known ns.occupant) (delete ns.occupant) _ _ (
      deleted (known ns.station) (delete ns.station) _ _
        (deleted (known ns.ap) (delete ns.ap) _ _ (removed (module_loaded es) _)))

-- After any run whose namespaces and module are those that its records show, the cleanup of its plan
-- runs, whatever becomes of each command, exactly the deletions of the plan's namespaces that were
-- added, the last one first, and the removal of the module if it was loaded.
pub cleanup-asked_for :
    (host : Host) (e : Endings) (st : Executor) (ns : Namespaces)
    → IsTracked st
    → ran (cleanup host e st (cleanup_plan ns)).1.records
      ≡ ran st.records ++ asked_for ns st.records
cleanup-asked_for host e st ns (n, l) =
    (cleanup-Follows host e st (cleanup_plan ns) (cleanup_plan-MakesNothing ns)).0
    ∙ ap (◌++◌ (ran st.records)) (
        ap₂ (λ (x : List Text) (y : Bool). filter_by (is_due x y) (cleanup_plan ns)) n l
        ∙ due_of_plan ns st.records)
