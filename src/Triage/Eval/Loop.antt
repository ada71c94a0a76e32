-- ===== src/Triage/Eval/Loop.antt =====
-- The preparation of the bundles and the loops of `evaluate` in triage/eval.py.
use airtrace.Prelude.{
  ℕ, Bool, false, not, Option, none, some, List, [], ◌∷◌, ◌++◌, ◌&&◌, ltb, map, filter_by,
}
use airtrace.Text.Base.{Text, codes}
use airtrace.Text.Order.{text_eq}
use airtrace.Triage.Eval.{
  ArmId, Model, Entry, bad_split, bad_budget, no_bundles, not_frozen, no_tools, oversized, Answer,
  given, and_then, refuse_if, is_in, is_empty, any_of, named_arms, known_arms, uses_model, is_tools,
  model_list, Group, groups_of, Exclusion, Prepared, Ran, EvalRow, exclusion_of, blank_row, row_of,
}

module _ (loads : Entry → Bool) (fits : ArmId → Model → Entry → Bool)
    (run : Entry → Group → Option Ran) where
  -- The preflight of a group on an observation.
  unfoldable pub is_oversized : Entry → Group → Bool
  is_oversized e (a, none) = false
  is_oversized e (a, some m) = not (fits a m e)

  unfoldable pub prepared_as : List Group → Entry → Option Exclusion → Answer Prepared
  prepared_as groups e none =
      refuse_if (any_of (is_oversized e) groups) oversized
        (given (record { entry = e; exclusion = none }))
  prepared_as groups e (some x) = given (record { entry = e; exclusion = some x })

  unfoldable pub prepare : List Group → List Entry → Answer (List Prepared)
  prepare groups [] = given []
  prepare groups (e ∷ es) =
      and_then (prepared_as groups e (exclusion_of e.quarantined (loads e)))
        (λ p. and_then (prepare groups es) (λ ps. given (p ∷ ps)))

  unfoldable pub eval_row : Prepared → Group → EvalRow
  eval_row p g = row_of p.exclusion (blank_row p.entry g p.exclusion) (run p.entry g)

  -- The two loops over the prepared bundles and the groups.
  unfoldable pub eval_rows : List Group → List Prepared → List EvalRow
  eval_rows groups [] = []
  eval_rows groups (p ∷ ps) = map (eval_row p) groups ++ eval_rows groups ps

  unfoldable pub evaluate :
      Text → ℕ → List Text → List Entry → Bool → List Model → Answer (List EvalRow)
  evaluate split budget names entries frozen models =
      refuse_if (not (is_in split (codes "dev" ∷ codes "test" ∷ []))) bad_split (
        refuse_if (ltb budget 300) bad_budget (
          and_then (known_arms names (named_arms names)) (λ arms.
            let chosen = filter_by (λ (e : Entry). text_eq e.split split) entries in
            refuse_if (is_empty chosen) no_bundles (
              refuse_if (text_eq split (codes "test") && not frozen) not_frozen (
                and_then (model_list (any_of uses_model arms) models) (λ used.
                  refuse_if
                    (any_of is_tools arms && any_of (λ (m : Model). not m.supports_tools) used)
                    no_tools
                    (and_then (prepare (groups_of used arms) chosen)
                      (λ ready. given (eval_rows (groups_of used arms) ready)))))))))
