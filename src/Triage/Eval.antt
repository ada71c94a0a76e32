-- ===== src/Triage/Eval.antt =====
-- triage/eval.py: the checks, the groups, the preparation and the rows of `evaluate`. What a bundle's
-- loading gives, what the preflight of an arm finds and what `run_arm` gives with its checked citations
-- are arguments; their models are in Triage/Arms and Triage/Citations. Hashes and files are left out.
pub mod Loop
pub mod Groups
pub mod Rows
pub mod Served
pub mod Selected
pub mod Accounts
pub mod Scores
pub mod Keys
pub mod Comparable
mod Examples
use airtrace.Prelude.{
  ℕ, Bool, true, false, not, Option, none, some, List, [], ◌∷◌, ◌++◌, ◌&&◌, ◌||◌, ltb, map,
  filter_by, if◌then◌else◌,
}
use airtrace.Text.Base.{Text, codes}
use airtrace.Text.Order.{text_eq}
use airtrace.Triage.Schema.{ClassId, RootCause, unknown_cause}
use airtrace.Triage.Metrics.{RowOutcome, truncated, context_rejected, scored, Row}

-- `ARM_IDS`
pub data ArmId : Type 0 where
  rules llm_raw llm_tools : ArmId

unfoldable pub arm_name : ArmId → Text
arm_name rules = codes "rules"
arm_name llm_raw = codes "llm_raw"
arm_name llm_tools = codes "llm_tools"

unfoldable pub arm_of : Text → Option ArmId
arm_of t =
    if text_eq t (codes "rules")
    then some rules
    else if text_eq t (codes "llm_raw")
    then some llm_raw
    else if text_eq t (codes "llm_tools")
    then some llm_tools
    else none

-- A model's configuration.
pub record Model : Type 0 where
  pub name : Text
  pub supports_tools : Bool

-- An entry of the manifest, with the label that its metadata gives.
pub record Entry : Type 0 where
  pub id : Text
  pub split : Text
  pub quarantined : Bool
  pub label : ClassId

-- The exceptions before a first request.
pub data Refusal : Type 0 where
  bad_split bad_budget bad_arms no_bundles not_frozen : Refusal
  repeated_model no_models no_tools oversized : Refusal

pub data Answer {ℓ} (A : Type ℓ) : Type ℓ where
  given : A → Answer A
  refused : Refusal → Answer A

unfoldable pub and_then {ℓ κ} : {A : Type ℓ} {B : Type κ} → Answer A → (A → Answer B) → Answer B
and_then (given a) next = next a
and_then (refused e) next = refused e

unfoldable pub refuse_if {ℓ} : {A : Type ℓ} → Bool → Refusal → Answer A → Answer A
refuse_if true e later = refused e
refuse_if false e later = later

unfoldable pub is_in : Text → List Text → Bool
is_in t [] = false
is_in t (x ∷ xs) = text_eq x t || is_in t xs

-- `len(names) == len(set(names))`
unfoldable pub all_distinct : List Text → Bool
all_distinct [] = true
all_distinct (x ∷ xs) = not (is_in x xs) && all_distinct xs

unfoldable pub any_of {ℓ} : {A : Type ℓ} → (A → Bool) → List A → Bool
any_of p [] = false
any_of p (x ∷ xs) = p x || any_of p xs

unfoldable pub is_empty {ℓ} : {A : Type ℓ} → List A → Bool
is_empty [] = true
is_empty (x ∷ xs) = false

unfoldable pub cons_arm : Option ArmId → Option (List ArmId) → Option (List ArmId)
cons_arm (some a) (some arms) = some (a ∷ arms)
cons_arm _ _ = none

unfoldable pub named_arms : List Text → Option (List ArmId)
named_arms [] = some []
named_arms (t ∷ ts) = cons_arm (arm_of t) (named_arms ts)

-- The arms that are selected: at least one, each once, each known.
unfoldable pub known_arms : List Text → Option (List ArmId) → Answer (List ArmId)
known_arms names none = refused bad_arms
known_arms names (some arms) =
    refuse_if (is_empty names || not (all_distinct names)) bad_arms (given arms)

unfoldable pub uses_model : ArmId → Bool
uses_model rules = false
uses_model llm_raw = true
uses_model llm_tools = true

unfoldable pub is_tools : ArmId → Bool
is_tools llm_tools = true
is_tools _ = false

-- `load_models`, where an arm needs a model.
unfoldable pub model_list : Bool → List Model → Answer (List Model)
model_list false models = given []
model_list true models =
    refuse_if (not (all_distinct (map (λ (m : Model). m.name) models))) repeated_model
      (refuse_if (is_empty models) no_models (given models))

-- A group: an arm, with the model of a model arm.
abbrev pub Group : Type 0
Group = ArmId × Option Model

unfoldable pub groups_of_arm : List Model → ArmId → List Group
groups_of_arm models rules = (rules, none) ∷ []
groups_of_arm models llm_raw = map (λ (m : Model). (llm_raw, some m)) models
groups_of_arm models llm_tools = map (λ (m : Model). (llm_tools, some m)) models

unfoldable pub groups_of : List Model → List ArmId → List Group
groups_of models [] = []
groups_of models (a ∷ as_) = groups_of_arm models a ++ groups_of models as_

-- `arm + ("/" + model.name if model else "")`
unfoldable pub group_name : Group → Text
group_name (a, none) = arm_name a
group_name (a, some m) = arm_name a ++ (47 ∷ m.name)

-- What the loading of a bundle gives: a view with frames, or one of the exceptions that are caught; an
-- observation is named by its bundle.
pub data Exclusion : Type 0 where
  quarantined load_error was_truncated was_rejected : Exclusion

pub record Prepared : Type 0 where
  pub entry : Entry
  pub exclusion : Option Exclusion

-- What `run_arm` and `check` give, or that they raised.
pub record Ran : Type 0 where
  pub prediction : RootCause
  pub schema_failure : Bool
  pub outcome : RowOutcome
  pub citations_valid : ℕ
  pub citations_invalid : ℕ

-- A row, with its group and its reason of exclusion.
pub record EvalRow : Type 0 where
  pub group : Text
  pub row : Row
  pub reason : Option Exclusion

unfoldable pub exclusion_of : Bool → Bool → Option Exclusion
exclusion_of true loads = some quarantined
exclusion_of false true = none
exclusion_of false false = some load_error

-- The row before the method runs, and after it raised.
unfoldable pub blank_row : Entry → Group → Option Exclusion → EvalRow
blank_row e g reason = record {
  group = group_name g;
  row = record {
    bundle = e.id;
    label = e.label;
    prediction = unknown_cause;
    excluded = elim reason [ none ↦ false | some x ↦ true ];
    outcome = scored;
    schema_failure = false;
    citations_valid = 0;
    citations_invalid = 0;
  };
  reason = reason;
}

unfoldable pub reason_of : RowOutcome → Option Exclusion
reason_of truncated = some was_truncated
reason_of context_rejected = some was_rejected
reason_of scored = none

-- `row.update(...)`
unfoldable pub filled : EvalRow → Option Ran → EvalRow
filled r none = r
filled r (some ran) = record {
  group = r.group;
  row = record {
    bundle = r.row.bundle;
    label = r.row.label;
    prediction = ran.prediction;
    excluded = elim (reason_of ran.outcome) [ none ↦ r.row.excluded | some x ↦ true ];
    outcome = ran.outcome;
    schema_failure = ran.schema_failure;
    citations_valid = ran.citations_valid;
    citations_invalid = ran.citations_invalid;
  };
  reason = elim (reason_of ran.outcome) [ none ↦ r.reason | some x ↦ some x ];
}

unfoldable pub row_of : Option Exclusion → EvalRow → Option Ran → EvalRow
row_of none r ran = filled r ran
row_of (some x) r ran = r
