-- ===== src/Triage/Eval/Groups.antt =====
-- The groups of an evaluation in triage/eval.py have different names.
use airtrace.Prelude.{
  ◌≡◌, refl, ap₂, sym, subst, ◌∙◌, append-nil, Bool, true, false, not, Option, none, some, List, [],
  ◌∷◌, ◌++◌, ◌&&◌, ◌||◌, map, All, All-append, Bool-cases, inl, inr,
}
use airtrace.Text.Base.{Text, codes}
use airtrace.Text.Order.{text_eq, text_eq_refl, eq_of_text_eq}
use airtrace.Triage.Eval.{
  ArmId, rules, llm_raw, llm_tools, arm_name, arm_of, Model, is_in, all_distinct, Group,
  groups_of_arm, groups_of, group_name,
}

abbrev pub Differs : Group → Group → Type 0
Differs g h = text_eq (group_name h) (group_name g) ≡ false

abbrev pub Apart : List Group → Type 0
Apart [] = Unit
Apart (g ∷ gs) = All (Differs g) gs × Apart gs

pub text_eq_flip : (s t : Text) → text_eq s t ≡ false → text_eq t s ≡ false
text_eq_flip s t h = elim (Bool-cases (text_eq t s)) [
  | inr e ↦ e
  | inl e ↦ absurd (
      clash (text_eq s t) h
        (subst (λ (x : Text). text_eq s x ≡ true) (sym (eq_of_text_eq t s e)) (text_eq_refl s)))
]
  where
    clash : (b : Bool) → b ≡ false → b ≡ true → ⊥
    clash true f k = cc
    clash false f k = cc

-- What follows the arm in the name of a group.
suffix : Option Model → Text
suffix none = []
suffix (some m) = 47 ∷ m.name

group_name-append : (a : ArmId) (o : Option Model) → group_name (a, o) ≡ arm_name a ++ suffix o
unfolding group_name suffix
group_name-append a none = sym (append-nil _)
group_name-append a (some m) = refl

other_arm :
    (a b : ArmId) (s t : Text)
    → text_eq (arm_name b) (arm_name a) ≡ false
    → text_eq (arm_name b ++ t) (arm_name a ++ s) ≡ false
unfolding arm_name text_eq
other_arm rules rules s t h = cc
other_arm rules llm_raw s t h = refl
other_arm rules llm_tools s t h = refl
other_arm llm_raw rules s t h = refl
other_arm llm_raw llm_raw s t h = cc
other_arm llm_raw llm_tools s t h = refl
other_arm llm_tools rules s t h = refl
other_arm llm_tools llm_raw s t h = refl
other_arm llm_tools llm_tools s t h = cc

same_arm : (a : ArmId) (s t : Text) → text_eq (arm_name a ++ t) (arm_name a ++ s) ≡ text_eq t s
unfolding arm_name text_eq
same_arm rules s t = refl
same_arm llm_raw s t = refl
same_arm llm_tools s t = refl

Differs-arm :
    (a b : ArmId) (o p : Option Model)
    → text_eq (arm_name b) (arm_name a) ≡ false
    → Differs (a, o) (b, p)
Differs-arm a b o p h =
    ap₂ text_eq (group_name-append b p) (group_name-append a o)
    ∙ other_arm a b (suffix o) (suffix p) h

Differs-model :
    (a : ArmId) (m n : Model) → text_eq n.name m.name ≡ false → Differs (a, some m) (a, some n)
unfolding group_name text_eq
Differs-model a m n h = same_arm a (47 ∷ m.name) (47 ∷ n.name) ∙ h

-- A name that is not in a list differs from each of the list.
not_in : (b c : Bool) → not (b || c) ≡ true → (b ≡ false) × (c ≡ false)
not_in true c h = cc
not_in false true h = cc
not_in false false h = (refl, refl)

both : (b c : Bool) → (b && c) ≡ true → (b ≡ true) × (c ≡ true)
both true c h = (refl, h)
both false c h = cc

module _ (a : ArmId) where
  models_apart :
      (m : Model) (ms : List Model)
      → not (is_in m.name (map (λ (x : Model). x.name) ms)) ≡ true
      → All (Differs (a, some m)) (map (λ (x : Model). (a, some x)) ms)
  unfolding is_in
  models_apart m [] h = tt
  models_apart m (n ∷ ms) h =
      let (e, f) = not_in _ _ h in (Differs-model a m n e, models_apart m ms (rw f refl))

  Apart-models :
      (ms : List Model)
      → all_distinct (map (λ (x : Model). x.name) ms) ≡ true
      → Apart (map (λ (x : Model). (a, some x)) ms)
  unfolding all_distinct
  Apart-models [] h = tt
  Apart-models (m ∷ ms) h = let (e, f) = both _ _ h in (models_apart m ms e, Apart-models ms f)

module _ (models : List Model) where
  -- Every group of an arm names the arm.
  groups_of_arm-All :
      (P : Group → Type 0) (b : ArmId)
      → ((o : Option Model) → P (b, o))
      → All P (groups_of_arm models b)
  unfolding groups_of_arm
  groups_of_arm-All P rules f = (f none, tt)
  groups_of_arm-All P llm_raw f = on_models models
    where
      on_models : (ms : List Model) → All P (map (λ (x : Model). (llm_raw, some x)) ms)
      on_models [] = tt
      on_models (m ∷ ms) = (f (some m), on_models ms)
  groups_of_arm-All P llm_tools f = on_models models
    where
      on_models : (ms : List Model) → All P (map (λ (x : Model). (llm_tools, some x)) ms)
      on_models [] = tt
      on_models (m ∷ ms) = (f (some m), on_models ms)

  later_apart :
      (a : ArmId) (o : Option Model) (arms : List ArmId)
      → not (is_in (arm_name a) (map arm_name arms)) ≡ true
      → All (Differs (a, o)) (groups_of models arms)
  unfolding groups_of is_in
  later_apart a o [] h = tt
  later_apart a o (b ∷ arms) h =
      let (e, f) = not_in _ _ h in
      All-append (Differs (a, o)) _ _
        (groups_of_arm-All (Differs (a, o)) b (λ p. Differs-arm a b o p e))
        (later_apart a o arms (rw f refl))

  Apart-append :
      (gs hs : List Group)
      → Apart gs
      → Apart hs
      → All (λ (g : Group). All (Differs g) hs) gs
      → Apart (gs ++ hs)
  Apart-append [] hs a b c = b
  Apart-append (g ∷ gs) hs (a, as_) b (c, cs) =
      (All-append (Differs g) gs hs a c, Apart-append gs hs as_ b cs)

  Apart-arm :
      (a : ArmId)
      → all_distinct (map (λ (x : Model). x.name) models) ≡ true
      → Apart (groups_of_arm models a)
  unfolding groups_of_arm
  Apart-arm rules h = (tt, tt)
  Apart-arm llm_raw h = Apart-models llm_raw models h
  Apart-arm llm_tools h = Apart-models llm_tools models h

  -- Distinct arms and distinct models make groups of different names.
  pub Apart-groups_of :
      (arms : List ArmId)
      → all_distinct (map arm_name arms) ≡ true
      → all_distinct (map (λ (x : Model). x.name) models) ≡ true
      → Apart (groups_of models arms)
  unfolding groups_of all_distinct
  Apart-groups_of [] h m = tt
  Apart-groups_of (a ∷ arms) h m =
      let (e, f) = both _ _ h in
      Apart-append (groups_of_arm models a) (groups_of models arms) (Apart-arm a m)
        (Apart-groups_of arms f m)
        (groups_of_arm-All (λ (g : Group). All (Differs g) (groups_of models arms)) a
          (λ o. later_apart a o arms e))

-- A text that names an arm is its name.
abbrev pub Names : Text → Option ArmId → Type 0
Names t none = Unit
Names t (some a) = t ≡ arm_name a

pub arm_of-Names : (t : Text) → Names t (arm_of t)
unfolding arm_of arm_name
arm_of-Names t = elim (Bool-cases (text_eq t (codes "rules"))) [
  | inl e ↦ rw e (eq_of_text_eq t (codes "rules") e)
  | inr e ↦ rw e (elim (Bool-cases (text_eq t (codes "llm_raw"))) [
    | inl f ↦ rw f (eq_of_text_eq t (codes "llm_raw") f)
    | inr f ↦ rw f (elim (Bool-cases (text_eq t (codes "llm_tools"))) [
      | inl g ↦ rw g (eq_of_text_eq t (codes "llm_tools") g)
      | inr g ↦ rw g tt
    ])
  ])
]
