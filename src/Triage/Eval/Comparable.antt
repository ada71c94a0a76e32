-- ===== src/Triage/Eval/Comparable.antt =====
-- The rows of an evaluation can be scored: no exception of compute_metrics in triage/metrics.py.
use airtrace.Prelude.{
  ℕ, ◌≡◌, refl, ap, ap₂, sym, subst, ◌∙◌, Bool, true, Option, none, some, List, [], ◌∷◌, map, All,
  All-append, filter_by,
}
use airtrace.Text.Base.{Text}
use airtrace.Text.Order.{text_eq}
use airtrace.Triage.Schema.{ClassId}
use airtrace.Triage.Eval.{
  ArmId, Model, Entry, given, all_distinct, Group, group_name, groups_of, Prepared, Exclusion, Ran,
  EvalRow, blank_row, filled, row_of,
}
use airtrace.Triage.Eval.Loop.{eval_row, eval_rows, evaluate}
use airtrace.Triage.Eval.Rows.{named, eval_row-group}
use airtrace.Triage.Eval.Selected.{evaluate-IsSelection}
use airtrace.Triage.Eval.Scores.{rows_named, Key, keys_of, ids_of, Scores, scores, compute_metrics}
use airtrace.Triage.Eval.Keys.{compute_metrics-common}

row_of-key :
    (o : Option Exclusion) (e : Entry) (g : Group) (reason : Option Exclusion) (ran : Option Ran)
    → ((row_of o (blank_row e g reason) ran).row.bundle ≡ e.id)
      × ((row_of o (blank_row e g reason) ran).row.label ≡ e.label)
unfolding row_of filled blank_row
row_of-key none e g reason none = (refl, refl)
row_of-key none e g reason (some ran) = (refl, refl)
row_of-key (some x) e g reason ran = (refl, refl)

-- The keys of the prepared bundles.
prepared_keys : List Prepared → List Key
prepared_keys ps = map (λ (p : Prepared). (p.entry.id, p.entry.label)) ps

module _ (loads : Entry → Bool) (fits : ArmId → Model → Entry → Bool)
    (run : Entry → Group → Option Ran) where
  keys_of-eval_row :
      (g : Group) (ps : List Prepared)
      → keys_of
          (map (λ (r : EvalRow). r.row) (map (λ (p : Prepared). eval_row loads fits run p g) ps))
        ≡ prepared_keys ps
  unfolding keys_of prepared_keys eval_row
  keys_of-eval_row g [] = refl
  keys_of-eval_row g (p ∷ ps) =
      let (i, l) = row_of-key p.exclusion p.entry g p.exclusion (run p.entry g) in
      ap₂ ◌∷◌ (ap₂ (λ (x : Text) (y : ClassId). (x, y)) i l) (keys_of-eval_row g ps)

  every_row :
      (P : Text → Type 0) (gs : List Group) (ps : List Prepared)
      → All (λ (g : Group). P (group_name g)) gs
      → All (λ (r : EvalRow). P r.group) (eval_rows loads fits run gs ps)
  unfolding eval_rows
  every_row P gs [] a = tt
  every_row P gs (p ∷ ps) a =
      All-append (λ (r : EvalRow). P r.group) _ _ (of_bundle gs a) (every_row P gs ps a)
    where
      of_bundle :
          (hs : List Group)
          → All (λ (g : Group). P (group_name g)) hs
          → All (λ (r : EvalRow). P r.group) (map (eval_row loads fits run p) hs)
      of_bundle [] b = tt
      of_bundle (h ∷ hs) (b, bs) =
          (subst P (sym (eval_row-group loads fits run p h)) b, of_bundle hs bs)

  ids_of-prepared :
      (ps : List Prepared)
      → ids_of (prepared_keys ps) ≡ map (λ (e : Entry). e.id) (map (λ (p : Prepared). p.entry) ps)
  unfolding ids_of prepared_keys
  ids_of-prepared [] = refl
  ids_of-prepared (p ∷ ps) = ap (◌∷◌ p.entry.id) (ids_of-prepared ps)

  -- The rows that an evaluation gives, where there is one, are scored: where the bundles of the split
  -- have different ids, no group has a bundle twice, all groups have the same bundles, and their labels
  -- agree.
  pub compute_metrics-evaluate :
      (split : Text) (budget : ℕ) (names : List Text) (entries : List Entry) (frozen : Bool)
      (models : List Model) (r : EvalRow) (rest : List EvalRow)
      → all_distinct
          (map (λ (e : Entry). e.id) (filter_by (λ (e : Entry). text_eq e.split split) entries))
        ≡ true
      → evaluate loads fits run split budget names entries frozen models ≡ given (r ∷ rest)
      → (s : Scores) × (compute_metrics (r ∷ rest) ≡ scores s)
  unfolding rows_named
  compute_metrics-evaluate split budget names entries frozen models r rest distinct h =
      let (arms, used, ps, known, ready, by_group, all_rows, served, by_arm) =
        evaluate-IsSelection loads fits run split budget names entries frozen models (r ∷ rest) h in
      let common = prepared_keys ps in
      let P = λ (n : Text). keys_of (rows_named (r ∷ rest) n) ≡ common in
      compute_metrics-common r rest common
        (subst (λ (ids : List Text). all_distinct ids ≡ true)
          (sym (ids_of-prepared ps ∙ ap (map (λ (e : Entry). e.id)) ready.0)) distinct)
        (subst (All (λ (x : EvalRow). P x.group)) (sym all_rows)
          (every_row P (groups_of used arms) ps (on_groups (groups_of used arms) ps by_group)))
    where
      on_groups :
          (gs : List Group) (ps : List Prepared)
          → All
              (λ (g : Group).
                filter_by (named g) (r ∷ rest)
                ≡ map (λ (p : Prepared). eval_row loads fits run p g) ps)
              gs
          → All
              (λ (g : Group). keys_of (rows_named (r ∷ rest) (group_name g)) ≡ prepared_keys ps)
              gs
      on_groups [] ps a = tt
      on_groups (g ∷ gs) ps (b, bs) = (
        ap (λ (rows : List EvalRow). keys_of (map (λ (x : EvalRow). x.row) rows)) b
            ∙ keys_of-eval_row g ps,
        on_groups gs ps bs,
      )
