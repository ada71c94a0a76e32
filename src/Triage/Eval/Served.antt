-- ===== src/Triage/Eval/Served.antt =====
-- The groups of the arms that `evaluate` of triage/eval.py selects: which models a model arm runs on.
use airtrace.Prelude.{◌≡◌, refl, subst, true, some, none, List, [], ◌∷◌, map, All, All-split}
use airtrace.Triage.Eval.{
  ArmId, rules, llm_raw, llm_tools, uses_model, any_of, Model, Group, groups_of_arm, groups_of,
}

-- A model arm runs on all models.
abbrev pub IsServed : List Model → List Model → ArmId → Type 0
IsServed models used rules = Unit
IsServed models used _ = used ≡ models

pub All-IsServed :
    (models used : List Model) (arms : List ArmId)
    → (any_of uses_model arms ≡ true → used ≡ models)
    → All (IsServed models used) arms
unfolding any_of uses_model
All-IsServed models used [] h = tt
All-IsServed models used (rules ∷ arms) h = (tt, All-IsServed models used arms h)
All-IsServed models used (llm_raw ∷ arms) h = (h refl, All-IsServed models used arms (λ e. h refl))
All-IsServed models used (llm_tools ∷ arms) h =
    (h refl, All-IsServed models used arms (λ e. h refl))

-- A property of the groups of an arm: the rule arm is one, a model arm has one for each model.
abbrev pub OnArm : (Group → Type 0) → List Model → ArmId → Type 0
OnArm P models rules = P (rules, none)
OnArm P models llm_raw = All (λ (m : Model). P (llm_raw, some m)) models
OnArm P models llm_tools = All (λ (m : Model). P (llm_tools, some m)) models

module _ (P : Group → Type 0) (models used : List Model) where
  All-of_map :
      (a : ArmId) (ms : List Model)
      → All P (map (λ (m : Model). (a, some m)) ms)
      → All (λ (m : Model). P (a, some m)) ms
  All-of_map a [] h = tt
  All-of_map a (m ∷ ms) (h, hs) = (h, All-of_map a ms hs)

  groups_of_arm-OnArm :
      (a : ArmId) → IsServed models used a → All P (groups_of_arm used a) → OnArm P models a
  unfolding groups_of_arm
  groups_of_arm-OnArm rules s h = h.0
  groups_of_arm-OnArm llm_raw s h =
      subst (All (λ (m : Model). P (llm_raw, some m))) s (All-of_map llm_raw used h)
  groups_of_arm-OnArm llm_tools s h =
      subst (All (λ (m : Model). P (llm_tools, some m))) s (All-of_map llm_tools used h)

  pub groups_of-OnArm :
      (arms : List ArmId)
      → All (IsServed models used) arms
      → All P (groups_of used arms)
      → All (OnArm P models) arms
  unfolding groups_of
  groups_of-OnArm [] s h = tt
  groups_of-OnArm (a ∷ arms) (s, ss) h =
      let (x, y) = All-split P (groups_of_arm used a) (groups_of used arms) h in
      (groups_of_arm-OnArm a s x, groups_of-OnArm arms ss y)
