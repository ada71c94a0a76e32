-- ===== src/Triage/Eval/Examples.antt =====
-- An evaluation of two bundles by two arms.
use airtrace.Prelude.{
  ◌≡◌, refl, Bool, true, false, Option, none, some, List, [], ◌∷◌, map, filter_by,
}
use airtrace.Text.Base.{Text, codes}
use airtrace.Text.Order.{text_eq}
use airtrace.Triage.Schema.{ok, ap_full, class}
use airtrace.Triage.Metrics.{scored}
use airtrace.Triage.Eval.{
  ArmId, arm_name, arm_of, Model, Entry, Answer, given, refused, and_then, refuse_if, is_in,
  all_distinct, any_of, is_empty, cons_arm, named_arms, known_arms, uses_model, is_tools,
  model_list, Group, groups_of_arm, groups_of, group_name, llm_raw, Prepared, Ran, EvalRow,
  exclusion_of, blank_row, reason_of, filled, row_of,
}
use airtrace.Triage.Eval.Loop.{is_oversized, prepared_as, prepare, eval_row, eval_rows, evaluate}
use airtrace.Triage.Eval.Scores.{Scores, scores, compute_metrics}
use airtrace.Triage.Eval.Comparable.{compute_metrics-evaluate}
use airtrace.Triage.Eval.Accounts.{Accounts}

abbrev good : Entry
good = record { id = codes "b1"; split = codes "dev"; quarantined = false; label = ok }

abbrev broken : Entry
broken = record { id = codes "b2"; split = codes "dev"; quarantined = true; label = ap_full }

abbrev small : Model
small = record { name = codes "m"; supports_tools = true }

abbrev loads : Entry → Bool
loads e = true

abbrev fits : ArmId → Model → Entry → Bool
fits a m e = true

abbrev method : Entry → Group → Option Ran
method e g = some (record {
  prediction = class ok;
  schema_failure = false;
  outcome = scored;
  citations_valid = 1;
  citations_invalid = 0;
})

abbrev names : List Text
names = codes "rules" ∷ codes "llm_raw" ∷ []

rows_in : Answer (List EvalRow) → List EvalRow
rows_in (given rows) = rows
rows_in (refused e) = []

chosen : List EvalRow
unfolding rows_in
chosen =
    rows_in
      (evaluate loads fits method (codes "dev") 300 names (good ∷ broken ∷ []) false (small ∷ []))

runs : Unit {0}
unfolding text_eq arm_name arm_of and_then refuse_if is_in all_distinct any_of is_empty cons_arm
    named_arms known_arms uses_model is_tools model_list groups_of_arm groups_of group_name
    exclusion_of blank_row reason_of filled row_of is_oversized prepared_as prepare eval_row
    eval_rows evaluate chosen
runs = tt

abbrev prepared_good : Prepared
prepared_good = record { entry = good; exclusion = none }

first_of : List EvalRow → EvalRow
first_of [] = blank_row good (llm_raw, none) none
first_of (r ∷ rs) = r

rest_of : List EvalRow → List EvalRow
rest_of [] = []
rest_of (r ∷ rs) = rs

different_ids :
    all_distinct (
      map
        (λ (e : Entry). e.id)
        (filter_by (λ (e : Entry). text_eq e.split (codes "dev")) (good ∷ broken ∷ [])))
    ≡ true
unfolding runs
different_ids = refl

evaluated_first :
    evaluate loads fits method (codes "dev") 300 names (good ∷ broken ∷ []) false (small ∷ [])
    ≡ given (first_of chosen ∷ rest_of chosen)
unfolding runs first_of rest_of
evaluated_first = refl

compute_metrics-evaluate_example :
    (s : Scores) × (compute_metrics (first_of chosen ∷ rest_of chosen) ≡ scores s)
compute_metrics-evaluate_example =
    compute_metrics-evaluate loads fits method (codes "dev") 300 names (good ∷ broken ∷ []) false
      (small ∷ []) (first_of chosen) (rest_of chosen) different_ids evaluated_first
