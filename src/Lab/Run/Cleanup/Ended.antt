-- ===== src/Lab/Run/Cleanup/Ended.antt =====
-- The processes after the cleanup of lab/run_lab.py.
use airtrace.Prelude.{
  ℕ, ◌≤◌, ◌≡◌, ◌⊎◌, refl, Bool, true, false, Option, none, some, List, [], ◌∷◌, ◌++◌, inl, inr,
  arith, All, All-split, if◌then◌else◌,
}
use airtrace.Lab.Run.Plan.{Argv}
use airtrace.Lab.Run.State.{Process, Executor, Host}
use airtrace.Lab.Run.Executor.{add_entry, elapse}
use airtrace.Lab.Run.Cleanup.{
  term, kill, Endings, Trouble, no_signal, by_kill, by_term, stop, trouble_of, finish_recorder,
  note_stopped, reversed, end_processes, cleanup,
}

-- A process is over at a time of the cleanup, which begins at `start` and ends the processes by `stop`:
-- it was not alive, it exited after SIGTERM that was sent to it, or after SIGKILL; and its recorder has
-- finished.
abbrev pub IsOver : Host → Endings → ℕ → ℕ → Process → Type 0
IsOver host e start stop p =
    (((t : ℕ) × (start ≤ t) × (t ≤ stop) × (host.is_alive t p.number ≡ false))
      ⊎ ((e.unsent p.number term ≡ false) × (e.exits p.number term ≡ true))
      ⊎ ((e.unsent p.number kill ≡ false) × (e.exits p.number kill ≡ true)))
    × (e.unfinished p.number ≡ false)

by_kill-none :
    (e : Endings) (n : ℕ) → by_kill e n ≡ none → (e.unsent n kill ≡ false) × (e.exits n kill ≡ true)
unfolding by_kill
by_kill-none e n h = ground arith

by_term-none :
    (e : Endings) (n : ℕ)
    → by_term e n ≡ none
    → ((e.unsent n term ≡ false) × (e.exits n term ≡ true))
      ⊎ ((e.unsent n kill ≡ false) × (e.exits n kill ≡ true))
unfolding by_term
by_term-none e n h =
    after_term (e.unsent n term) (e.exits n term) (by_kill e n) h (by_kill-none e n)
  where
    after_term :
        {K : Type 0} (u x : Bool) (killed : Option Trouble)
        → (if u then some (no_signal n term) else if x then none else killed) ≡ none
        → (killed ≡ none → K)
        → ((u ≡ false) × (x ≡ true)) ⊎ K
    after_term true x killed k f = cc
    after_term false true killed k f = inl (refl, refl)
    after_term false false killed k f = inr (f k)

stop-none :
    (e : Endings) (alive : Bool) (n : ℕ)
    → stop e alive n ≡ none
    → (alive ≡ false)
      ⊎ ((e.unsent n term ≡ false) × (e.exits n term ≡ true))
      ⊎ ((e.unsent n kill ≡ false) × (e.exits n kill ≡ true))
unfolding stop
stop-none e true n h = inr (by_term-none e n h)
stop-none e false n h = inl refl

finish_recorder-nil : (e : Endings) (n : ℕ) → finish_recorder e n ≡ [] → e.unfinished n ≡ false
unfolding finish_recorder
finish_recorder-nil e n h = ground arith

trouble_none :
    (o : Option Trouble) (rest : List Trouble)
    → trouble_of o ++ rest ≡ []
    → (o ≡ none) × (rest ≡ [])
unfolding trouble_of
trouble_none none rest h = (refl, h)
trouble_none (some t) rest h = cc

both_empty : (xs ys : List Trouble) → xs ++ ys ≡ [] → (xs ≡ []) × (ys ≡ [])
both_empty [] ys h = (refl, h)
both_empty (x ∷ xs) ys h = cc

note_stopped-now :
    (st : Executor) (argv : Argv) (o : Option Trouble) → (note_stopped st argv o).now ≡ st.now
unfolding note_stopped add_entry
note_stopped-now st argv none = refl
note_stopped-now st argv (some t) = refl

later-IsOver :
    (host : Host) (e : Endings) (p : Process) (start stop_ : ℕ)
    → (host.is_alive start p.number ≡ false)
      ⊎ ((e.unsent p.number term ≡ false) × (e.exits p.number term ≡ true))
      ⊎ ((e.unsent p.number kill ≡ false) × (e.exits p.number kill ≡ true))
    → e.unfinished p.number ≡ false
    → (first : ℕ) → first ≤ start
    → start ≤ stop_
    → IsOver host e first stop_ p
later-IsOver host e p start stop_ (inl dead) f first low high = (inl (start, low, high, dead), f)
later-IsOver host e p start stop_ (inr ended) f first low high = (inr ended, f)

module _ (host : Host) (e : Endings) where
  -- The time of the loop only grows.
  end_processes-now :
      (ps : List Process) (st : Executor) → st.now ≤ (end_processes host e st ps).1.now
  unfolding end_processes elapse
  end_processes-now [] st = omega arith
  end_processes-now (p ∷ ps) st =
      let outcome = stop e (host.is_alive st.now p.number) p.number in
      let noted = note_stopped st p.argv outcome in
      let rest = end_processes-now ps (elapse noted (e.takes p.number)) in
      omega (arith, rest, note_stopped-now st p.argv outcome)

  end_processes-IsOver :
      (ps : List Process) (st : Executor) (start : ℕ)
      → start ≤ st.now
      → (end_processes host e st ps).0 ≡ []
      → All (IsOver host e start (end_processes host e st ps).1.now) ps
  unfolding end_processes elapse
  end_processes-IsOver [] st start t h = tt
  end_processes-IsOver (p ∷ ps) st start t h =
      let outcome = stop e (host.is_alive st.now p.number) p.number in
      let noted = note_stopped st p.argv outcome in
      let after = elapse noted (e.takes p.number) in
      let (a, b) = trouble_none outcome _ h in
      let (c, d) = both_empty (finish_recorder e p.number) _ b in
      let same = note_stopped-now st p.argv outcome in
      let grows = end_processes-now ps after in
      (
        later-IsOver host e p st.now _ (stop-none e (host.is_alive st.now p.number) p.number a)
            (finish_recorder-nil e p.number c) start t (omega (arith, grows, same)),
        end_processes-IsOver ps after start (omega (arith, t, same)) d,
      )

reversed-All : (P : Process → Type 0) (ps : List Process) → All P (reversed ps) → All P ps
unfolding reversed
reversed-All P [] h = tt
reversed-All P (p ∷ ps) h =
    let (before, last) = All-split P (reversed ps) (p ∷ []) h in (last.0, reversed-All P ps before)

-- A cleanup without errors leaves no process: each one that the run started was not alive any more at a
-- time between the start of the cleanup and its first command, or exited after a signal that the cleanup
-- sent; and its recorder has finished.
pub cleanup-IsOver :
    (host : Host) (e : Endings) (st : Executor) (commands : List Argv)
    → (cleanup host e st commands).0 ≡ []
    → All
        (IsOver host e st.now (end_processes host e st (reversed st.processes)).1.now)
        st.processes
unfolding cleanup
cleanup-IsOver host e st commands h = reversed-All _ st.processes (
    end_processes-IsOver host e (reversed st.processes) st st.now (omega arith)
      (both_empty _ _ h).0)
