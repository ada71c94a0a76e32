-- ===== src/Lab/Run/Executor/Tracked.antt =====
-- What `Executor` in lab/run_lab.py knows of the host's state: the namespaces and the module that its
-- records show as made.
use airtrace.Prelude.{
  ℕ, ◌≡◌, refl, ap, sym, ◌∙◌, Bool, true, false, Option, none, some, List, [], ◌∷◌, ◌++◌, ◌||◌,
  append-nil, append_assoc, if◌then◌else◌, arith,
}
use airtrace.Text.Base.{Text}
use airtrace.Triage.Schema.{ClassId}
use airtrace.Lab.Scenarios.{Parameters}
use airtrace.Lab.Run.Plan.{Argv, Phys, has_prefix, fourth, netns_add, load_module}
use airtrace.Lab.Run.State.{
  Outcome, completed, no_start, expired, Entry, command, out_of_time, background, Executor, Host,
  fresh,
}
use airtrace.Lab.Run.Executor.{
  note_success, add_entry, checked_reply, conclude, sleep, invoke, elapse, spawned, play,
}
use airtrace.Lab.Run.Executor.Preserve.{HoldsIn, play-HoldsIn}

-- The namespaces whose creation succeeded, by the records.
unfoldable pub added_by : Entry → List Text
added_by (command argv timeout (completed true out)) =
    if has_prefix netns_add argv then fourth argv ∷ [] else []
added_by _ = []

unfoldable pub namespaces_added : List Entry → List Text
namespaces_added [] = []
namespaces_added (e ∷ es) = added_by e ++ namespaces_added es

-- Whether loading the module succeeded, by the records.
unfoldable pub loads : Entry → Bool
loads (command argv timeout (completed true out)) = has_prefix load_module argv
loads _ = false

unfoldable pub module_loaded : List Entry → Bool
module_loaded [] = false
module_loaded (e ∷ es) = loads e || module_loaded es

abbrev pub Tracks : List Text → Bool → List Entry → Type 0
Tracks ns loaded es = (ns ≡ namespaces_added es) × (loaded ≡ module_loaded es)

abbrev pub IsTracked : Executor → Type 0
IsTracked st = Tracks st.namespaces st.loaded_module st.records

namespaces_added-append :
    (es : List Entry) (e : Entry)
    → namespaces_added (es ++ e ∷ []) ≡ namespaces_added es ++ added_by e
unfolding namespaces_added
namespaces_added-append [] e = append-nil (added_by e)
namespaces_added-append (f ∷ es) e =
    ap (◌++◌ (added_by f)) (namespaces_added-append es e)
    ∙ sym (append_assoc (added_by f) (namespaces_added es) (added_by e))

or_assoc : (a b c : Bool) → (a || (b || c)) ≡ ((a || b) || c)
or_assoc true b c = refl
or_assoc false b c = refl

module_loaded-append :
    (es : List Entry) (e : Entry) → module_loaded (es ++ e ∷ []) ≡ (module_loaded es || loads e)
unfolding module_loaded
module_loaded-append [] e = ground arith
module_loaded-append (f ∷ es) e =
    rw (module_loaded-append es e) (or_assoc (loads f) (module_loaded es) (loads e))

-- What a new entry shows is taken in; where it shows nothing, nothing changes.
takes_in :
    (ns : List Text) (loaded : Bool) (es : List Entry) (e : Entry)
    → Tracks ns loaded es
    → Tracks (ns ++ added_by e) (loaded || loads e) (es ++ e ∷ [])
takes_in ns loaded es e (n, l) =
    (rw n (sym (namespaces_added-append es e)), rw l (sym (module_loaded-append es e)))

or_false : (b : Bool) → (b || false) ≡ b
or_false true = refl
or_false false = refl

stays :
    (ns : List Text) (loaded : Bool) (es : List Entry) (e : Entry)
    → added_by e ≡ []
    → loads e ≡ false
    → Tracks ns loaded es
    → Tracks ns loaded (es ++ e ∷ [])
stays ns loaded es e a b (n, l) = (
  n ∙ sym (namespaces_added-append es e ∙ ap (◌++◌ (namespaces_added es)) a ∙ append-nil _),
  l ∙ sym (module_loaded-append es e ∙ ap (◌||◌ (module_loaded es)) b ∙ or_false _),
)

append_if :
    (b : Bool) (ns : List Text) (n : Text)
    → (if b then ns ++ n ∷ [] else ns) ≡ ns ++ (if b then n ∷ [] else [])
append_if true ns n = refl
append_if false ns n = sym (append-nil ns)

module _ (host : Host) where
  conclude-IsTracked :
      (st : Executor) (argv : Argv) (timeout : ℕ) (check : Bool) (result : Outcome)
      → IsTracked st
      → HoldsIn IsTracked (conclude (add_entry st (command argv timeout result)) argv check result)
  unfolding conclude add_entry note_success checked_reply added_by loads
  conclude-IsTracked st argv timeout check (completed true out) t =
      let next =
        takes_in st.namespaces st.loaded_module st.records
          (command argv timeout (completed true out)) t in
      (append_if (has_prefix netns_add argv) st.namespaces (fourth argv) ∙ next.0, next.1)
  conclude-IsTracked st argv timeout true (completed false out) t =
      stays _ _ st.records (command argv timeout (completed false out)) refl refl t
  conclude-IsTracked st argv timeout false (completed false out) t =
      stays _ _ st.records (command argv timeout (completed false out)) refl refl t
  conclude-IsTracked st argv timeout check (no_start e) t =
      stays _ _ st.records (command argv timeout (no_start e)) refl refl t
  conclude-IsTracked st argv timeout check expired t =
      stays _ _ st.records (command argv timeout expired) refl refl t

  pub invoke-IsTracked :
      (st : Executor) (argv : Argv) (timeout : ℕ) (check : Bool) (limit : Option ℕ)
      → IsTracked st
      → HoldsIn IsTracked (invoke host st argv timeout check limit)
  unfolding invoke add_entry added_by loads
  invoke-IsTracked st argv timeout check none t =
      stays _ _ st.records (out_of_time argv timeout) refl refl t
  invoke-IsTracked st argv timeout check (some limit) t =
      conclude-IsTracked _ argv timeout check (host.outcome st.calls argv limit) t

  spawned-IsTracked :
      (st : Executor) (time : ℕ) (argv : Argv) (log : Text) (required can : Bool)
      → IsTracked st
      → HoldsIn IsTracked (spawned (elapse st time) argv log required can)
  unfolding spawned elapse add_entry added_by loads
  spawned-IsTracked st time argv log required false t = t
  spawned-IsTracked st time argv log required true t =
      stays _ _ st.records (background argv log) refl refl t

  sleep-IsTracked : (st : Executor) (ms : ℕ) → IsTracked st → IsTracked (sleep host st ms)
  unfolding sleep
  sleep-IsTracked st ms t = t

fresh-IsTracked : (now : ℕ) → IsTracked (fresh now)
unfolding fresh namespaces_added module_loaded
fresh-IsTracked now = (refl, refl)

-- However a run of the plan ends, the executor knows exactly the namespaces whose creation succeeded,
-- in their order, and whether loading the module succeeded.
pub play-IsTracked :
    (host : Host) (now : ℕ) (found : Option Phys) (c : ClassId) (p : Parameters)
    (digest : Text → Text) (seed : ℕ) (root : Text)
    → HoldsIn IsTracked (play host (fresh now) found c p digest seed root)
play-IsTracked host now found c p digest seed root =
    play-HoldsIn IsTracked host (invoke-IsTracked host) (sleep-IsTracked host)
      (spawned-IsTracked host) (fresh now) found c p digest seed root (fresh-IsTracked now)
