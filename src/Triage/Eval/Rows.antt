-- ===== src/Triage/Eval/Rows.antt =====
-- The rows of an evaluation in triage/eval.py, by group.
use airtrace.Prelude.{
  ◌≡◌, refl, ap, ◌∙◌, Bool, Option, none, some, List, [], ◌∷◌, ◌++◌, map, All, filter_by,
  Bool-cases, inl, inr,
}
use airtrace.Text.Base.{Text}
use airtrace.Text.Order.{text_eq, text_eq_refl}
use airtrace.Triage.Eval.{
  ArmId, Model, Entry, Group, group_name, Prepared, Ran, EvalRow, Exclusion, blank_row, filled,
  row_of,
}
use airtrace.Triage.Eval.Loop.{eval_row, eval_rows}
use airtrace.Triage.Eval.Groups.{Differs, Apart, text_eq_flip}

row_of-group :
    (o : Option Exclusion) (r : EvalRow) (ran : Option Ran) → (row_of o r ran).group ≡ r.group
unfolding row_of filled
row_of-group none r none = refl
row_of-group none r (some ran) = refl
row_of-group (some x) r ran = refl

abbrev pub named : Group → EvalRow → Bool
named g r = text_eq r.group (group_name g)

filter_by-append :
    {A : Type 0} (p : A → Bool) (xs ys : List A)
    → filter_by p (xs ++ ys) ≡ filter_by p xs ++ filter_by p ys
filter_by-append p [] ys = refl
filter_by-append p (x ∷ xs) ys = elim (Bool-cases (p x)) [
  | inl e ↦ rw e (ap (◌∷◌ x) (filter_by-append p xs ys))
  | inr e ↦ rw e (filter_by-append p xs ys)
]

All-both :
    {A : Type 0} (P Q R : A → Type 0) (xs : List A)
    → ((x : A) → P x → Q x → R x)
    → All P xs
    → All Q xs
    → All R xs
All-both P Q R [] f h k = tt
All-both P Q R (x ∷ xs) f h k = (f x h.0 k.0, All-both P Q R xs f h.1 k.1)

module _ (loads : Entry → Bool) (fits : ArmId → Model → Entry → Bool)
    (run : Entry → Group → Option Ran) where
  pub eval_row-group :
      (p : Prepared) (g : Group) → (eval_row loads fits run p g).group ≡ group_name g
  unfolding eval_row blank_row
  eval_row-group p g = row_of-group p.exclusion _ (run p.entry g)

  others_pass :
      (p : Prepared) (g : Group) (hs : List Group)
      → All (Differs g) hs
      → filter_by (named g) (map (eval_row loads fits run p) hs) ≡ []
  others_pass p g [] h = refl
  others_pass p g (x ∷ hs) (d, h) =
      rw (ap (λ (t : Text). text_eq t (group_name g)) (eval_row-group p x) ∙ d)
        (others_pass p g hs h)

  -- One bundle gives one row to each group.
  one_row :
      (p : Prepared) (gs : List Group)
      → Apart gs
      → All
          (λ (g : Group).
            filter_by (named g) (map (eval_row loads fits run p) gs)
            ≡ eval_row loads fits run p g ∷ [])
          gs
  one_row p [] a = tt
  one_row p (g ∷ gs) (d, a) = (
    rw
        (ap (λ (t : Text). text_eq t (group_name g)) (eval_row-group p g)
          ∙ text_eq_refl (group_name g))
        (ap (◌∷◌ (eval_row loads fits run p g)) (others_pass p g gs d)),
    All-both (Differs g) _ _ gs
        (λ h e k.
          let off =
            ap (λ (t : Text). text_eq t (group_name h)) (eval_row-group p g) ∙ text_eq_flip _ _ e in
          rw off k)
        d (one_row p gs a),
  )

  -- The rows of a group are the rows of the prepared bundles, one for each, in their order.
  pub rows_by_group :
      (gs : List Group) (ps : List Prepared)
      → Apart gs
      → All
          (λ (g : Group).
            filter_by (named g) (eval_rows loads fits run gs ps)
            ≡ map (λ (p : Prepared). eval_row loads fits run p g) ps)
          gs
  unfolding eval_rows
  rows_by_group gs [] a = every gs
    where
      every : (hs : List Group) → All (λ (g : Group). ◌≡◌ {A = List EvalRow} [] []) hs
      every [] = tt
      every (h ∷ hs) = (refl, every hs)
  rows_by_group gs (p ∷ ps) a =
      All-both _ _ _ gs
        (λ g e k.
          filter_by-append (named g) _ _
          ∙ ap (λ (x : List EvalRow). x ++ filter_by (named g) (eval_rows loads fits run gs ps)) e
          ∙ ap (◌∷◌ (eval_row loads fits run p g)) k)
        (one_row p gs a) (rows_by_group gs ps a)
