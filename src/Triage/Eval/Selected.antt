-- ===== src/Triage/Eval/Selected.antt =====
-- What `evaluate` of triage/eval.py gives, where it gives rows.
use airtrace.Prelude.{
  ℕ, ◌≡◌, refl, ap₂, subst, Bool, true, false, not, Option, none, some, List, [], ◌∷◌, ◌||◌, map,
  All, filter_by,
}
use airtrace.Text.Base.{Text}
use airtrace.Text.Order.{text_eq}
use airtrace.Triage.Eval.{
  ArmId, arm_name, arm_of, Model, Entry, Refusal, Answer, given, refused, and_then, refuse_if,
  all_distinct, any_of, cons_arm, named_arms, known_arms, model_list, Group, groups_of, Prepared,
  Exclusion, exclusion_of, Ran, EvalRow,
}
use airtrace.Triage.Eval.Loop.{eval_rows, is_oversized, prepared_as, prepare, eval_row, evaluate}
use airtrace.Triage.Eval.Groups.{Apart-groups_of, arm_of-Names, Names}
use airtrace.Triage.Eval.Served.{IsServed, All-IsServed, OnArm, groups_of-OnArm}
use airtrace.Triage.Eval.Rows.{named, rows_by_group}

-- A property of what is given.
abbrev OfGiven : {A : Type 0} → (A → Type 0) → Answer A → Type 0
OfGiven P (given a) = P a
OfGiven P (refused e) = Unit

refuse_if-OfGiven :
    {A : Type 0} (P : A → Type 0) (b : Bool) (e : Refusal) (later : Answer A)
    → (b ≡ false → OfGiven P later)
    → OfGiven P (refuse_if b e later)
unfolding refuse_if
refuse_if-OfGiven P true e later h = tt
refuse_if-OfGiven P false e later h = h refl

and_then-OfGiven :
    {A B : Type 0} (P : B → Type 0) (v : Answer A) (next : A → Answer B)
    → ((a : A) → v ≡ given a → OfGiven P (next a))
    → OfGiven P (and_then v next)
unfolding and_then
and_then-OfGiven P (given a) next h = h a refl
and_then-OfGiven P (refused e) next h = tt

-- The selected arms are known and distinct.
abbrev NamesAll : List Text → Option (List ArmId) → Type 0
NamesAll ts none = Unit
NamesAll ts (some arms) = ts ≡ map arm_name arms

cons_arm-NamesAll :
    (t : Text) (ts : List Text) (o : Option ArmId) (p : Option (List ArmId))
    → Names t o
    → NamesAll ts p
    → NamesAll (t ∷ ts) (cons_arm o p)
unfolding cons_arm
cons_arm-NamesAll t ts none p h k = tt
cons_arm-NamesAll t ts (some a) none h k = tt
cons_arm-NamesAll t ts (some a) (some arms) h k = ap₂ ◌∷◌ h k

named_arms-NamesAll : (ts : List Text) → NamesAll ts (named_arms ts)
unfolding named_arms
named_arms-NamesAll [] = refl
named_arms-NamesAll (t ∷ ts) =
    cons_arm-NamesAll t ts (arm_of t) (named_arms ts) (arm_of-Names t) (named_arms-NamesAll ts)

known_arms-distinct :
    (names : List Text) (arms : List ArmId)
    → known_arms names (named_arms names) ≡ given arms
    → (named_arms names ≡ some arms) × (all_distinct (map arm_name arms) ≡ true)
unfolding known_arms
known_arms-distinct names arms h =
    subst
      (OfGiven (λ (as_ : List ArmId).
        (named_arms names ≡ some as_) × (all_distinct (map arm_name as_) ≡ true)))
      h (of_option (named_arms names) refl)
  where
    right : (a b : Bool) → (a || not b) ≡ false → b ≡ true
    right true b k = cc
    right false true k = refl
    right false false k = cc

    of_option :
        (o : Option (List ArmId))
        → named_arms names ≡ o
        → OfGiven
            (λ (as_ : List ArmId).
              (named_arms names ≡ some as_) × (all_distinct (map arm_name as_) ≡ true))
            (known_arms names o)
    of_option none e = tt
    of_option (some as_) e = refuse_if-OfGiven _ _ _ _ (λ f. (
      e,
      subst (λ (ns : List Text). all_distinct ns ≡ true)
          (subst (NamesAll names) e (named_arms-NamesAll names)) (right _ _ f),
    ))

model_list-distinct :
    (b : Bool) (models used : List Model)
    → model_list b models ≡ given used
    → all_distinct (map (λ (m : Model). m.name) used) ≡ true
unfolding model_list all_distinct
model_list-distinct b models used h =
    subst (OfGiven (λ (ms : List Model). all_distinct (map (λ (m : Model). m.name) ms) ≡ true)) h
      (by_need b)
  where
    positive : (x : Bool) → not x ≡ false → x ≡ true
    positive true k = refl
    positive false k = cc

    distinct_none : all_distinct [] ≡ true
    distinct_none = refl

    by_need :
        (x : Bool)
        → OfGiven
            (λ (ms : List Model). all_distinct (map (λ (m : Model). m.name) ms) ≡ true)
            (model_list x models)
    by_need false = distinct_none
    by_need true = refuse_if-OfGiven _ _ _ _ (λ d. refuse_if-OfGiven _ _ _ _ (λ e. positive _ d))

model_list-used :
    (b : Bool) (models used : List Model)
    → model_list b models ≡ given used
    → b ≡ true
    → used ≡ models
unfolding model_list
model_list-used true models used h e =
    subst (OfGiven (λ (ms : List Model). ms ≡ models)) h
      (refuse_if-OfGiven _ _ _ _ (λ d. refuse_if-OfGiven _ _ _ _ (λ f. refl)))
model_list-used false models used h e = cc

module _ (loads : Entry → Bool) (fits : ArmId → Model → Entry → Bool)
    (run : Entry → Group → Option Ran) where
  -- A bundle is left out where it is quarantined or does not load; the prompts of all groups fit the others.
  abbrev pub IsReady : List Group → Prepared → Type 0
  IsReady gs p =
      (p.exclusion ≡ exclusion_of p.entry.quarantined (loads p.entry))
      × (p.exclusion ≡ none → any_of (is_oversized loads fits run p.entry) gs ≡ false)

  abbrev pub AreReady : List Group → List Entry → List Prepared → Type 0
  AreReady gs es ps = (map (λ (p : Prepared). p.entry) ps ≡ es) × All (IsReady gs) ps

  prepared_as-IsReady :
      (gs : List Group) (e : Entry) (o : Option Exclusion)
      → o ≡ exclusion_of e.quarantined (loads e)
      → OfGiven (λ (p : Prepared). (p.entry ≡ e) × IsReady gs p) (prepared_as loads fits run gs e o)
  unfolding prepared_as
  prepared_as-IsReady gs e none h = refuse_if-OfGiven _ _ _ _ (λ f. (refl, (h, λ n. f)))
  prepared_as-IsReady gs e (some x) h = (refl, (h, λ n. cc))

  prepare-AreReady :
      (gs : List Group) (es : List Entry) → OfGiven (AreReady gs es) (prepare loads fits run gs es)
  unfolding prepare
  prepare-AreReady gs [] = (refl, tt)
  prepare-AreReady gs (e ∷ es) = and_then-OfGiven _ _ _ (λ p f. and_then-OfGiven _ _ _ (λ ps g.
      let one =
        subst (OfGiven (λ (q : Prepared). (q.entry ≡ e) × IsReady gs q)) f
          (prepared_as-IsReady gs e _ refl) in
      let rest = subst (OfGiven (AreReady gs es)) g (prepare-AreReady gs es) in
      (ap₂ ◌∷◌ one.0 rest.0, (one.1, rest.1))))

  -- The rows of a group are those of the prepared bundles, in their order.
  abbrev pub HasRows : List EvalRow → List Prepared → Group → Type 0
  HasRows rows ps g =
      filter_by (named g) rows ≡ map (λ (p : Prepared). eval_row loads fits run p g) ps

  -- What holds of the rows of an evaluation.
  abbrev pub IsSelection : Text → List Text → List Entry → List Model → List EvalRow → Type 0
  IsSelection split names entries models rows =
      (arms : List ArmId) × (used : List Model) × (ps : List Prepared) × (named_arms names
        ≡ some arms)
      × AreReady (groups_of used arms) (filter_by (λ (e : Entry). text_eq e.split split) entries) ps
      × All (HasRows rows ps) (groups_of used arms)
      × (rows ≡ eval_rows loads fits run (groups_of used arms) ps)
      × All (IsServed models used) arms
      × All (OnArm (HasRows rows ps) models) arms

  pub evaluate-IsSelection :
      (split : Text) (budget : ℕ) (names : List Text) (entries : List Entry) (frozen : Bool)
      (models : List Model) (rows : List EvalRow)
      → evaluate loads fits run split budget names entries frozen models ≡ given rows
      → IsSelection split names entries models rows
  unfolding evaluate
  evaluate-IsSelection split budget names entries frozen models rows h =
      subst (OfGiven (IsSelection split names entries models)) h (
        refuse_if-OfGiven _ _ _ _ (λ a. refuse_if-OfGiven _ _ _ _ (λ b.
          and_then-OfGiven _ _ _ (λ arms k. refuse_if-OfGiven _ _ _ _ (λ c.
            refuse_if-OfGiven _ _ _ _ (λ d. and_then-OfGiven _ _ _ (λ used m.
              refuse_if-OfGiven _ _ _ _ (λ t. and_then-OfGiven _ _ _ (λ ps r.
                let (n, e) = known_arms-distinct names arms k in
                let served = All-IsServed models used arms (model_list-used _ models used m) in
                let apart = Apart-groups_of used arms e (model_list-distinct _ models used m) in
                (
                  arms,
                  used,
                  ps,
                  n,
                  subst
                      (OfGiven (
                        AreReady (groups_of used arms)
                          (filter_by (λ (x : Entry). text_eq x.split split) entries)))
                      r
                      (prepare-AreReady (groups_of used arms)
                        (filter_by (λ (x : Entry). text_eq x.split split) entries)),
                  rows_by_group loads fits run (groups_of used arms) ps apart,
                  refl,
                  served,
                  groups_of-OnArm _ models used arms served
                      (rows_by_group loads fits run (groups_of used arms) ps apart),
                ))))))))))
