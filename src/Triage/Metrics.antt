-- ===== src/Triage/Metrics.antt =====
-- The counts of triage/metrics.py: exclusions, the confusion matrix and paired rows. Rates, intervals
-- and p-values, which are floating point, are not modelled.
pub mod Confusion
pub mod Pairs
mod Examples
use airtrace.Prelude.{
  ℕ, ◌+◌, ◌-◌, Bool, true, false, not, Option, none, some, List, [], ◌∷◌, ◌&&◌, ◌||◌, ltb, length,
  count_by, bit, sum_by, filter_by, map, if◌then◌else◌,
}
use airtrace.Text.Base.{Text}
use airtrace.Triage.Schema.{
  ClassId, ok, wrong_passphrase, akm_mismatch, pmf_required_unsupported, mac_denied, ap_full,
  dhcp_no_server, ap_deauth, ssid_not_found, RootCause, class, unknown_cause,
}

-- The outcomes that rows distinguish.
pub data RowOutcome : Type 0 where
  truncated context_rejected scored : RowOutcome

-- What the counts read of a row. `citations` are its valid and invalid ones.
pub record Row : Type 0 where
  pub bundle : Text
  pub label : ClassId
  pub prediction : RootCause
  pub excluded : Bool
  pub outcome : RowOutcome
  pub schema_failure : Bool
  pub citations_valid : ℕ
  pub citations_invalid : ℕ

-- `exclusion_reason(row) is not None`
unfoldable pub is_excluded : Row → Bool
is_excluded row =
    row.excluded || elim row.outcome [ truncated ↦ true | context_rejected ↦ true | scored ↦ false ]

-- `CLASS_IDS`
abbrev pub class_ids : List ClassId
class_ids =
    ok ∷ wrong_passphrase ∷ akm_mismatch ∷ pmf_required_unsupported ∷ mac_denied ∷ ap_full
    ∷ dhcp_no_server ∷ ap_deauth ∷ ssid_not_found ∷ []

-- The position in `CLASS_IDS`.
unfoldable pub class_index : ClassId → ℕ
class_index ok = 0
class_index wrong_passphrase = 1
class_index akm_mismatch = 2
class_index pmf_required_unsupported = 3
class_index mac_denied = 4
class_index ap_full = 5
class_index dhcp_no_server = 6
class_index ap_deauth = 7
class_index ssid_not_found = 8

unfoldable pub class_eq : ClassId → ClassId → Bool
class_eq a b = same_index (class_index a) (class_index b)
  where
    same_index : ℕ → ℕ → Bool
    same_index m n = not (ltb m n || ltb n m)

unfoldable pub predicts : RootCause → ClassId → Bool
predicts (class c) label = class_eq c label
predicts unknown_cause label = false

-- `row["label"] == row["prediction"]`
unfoldable pub is_correct : Row → Bool
is_correct row = predicts row.prediction row.label

-- The columns are the classes and "unknown".
abbrev pub columns : List RootCause
columns =
    class ok
    ∷ class wrong_passphrase
    ∷ class akm_mismatch
    ∷ class pmf_required_unsupported
    ∷ class mac_denied
    ∷ class ap_full
    ∷ class dhcp_no_server
    ∷ class ap_deauth
    ∷ class ssid_not_found
    ∷ unknown_cause
    ∷ []

unfoldable pub same_prediction : RootCause → RootCause → Bool
same_prediction (class c) (class d) = class_eq c d
same_prediction unknown_cause unknown_cause = true
same_prediction _ _ = false

unfoldable pub evaluated : List Row → List Row
evaluated rows = filter_by (λ r. not (is_excluded r)) rows

-- `confusion[label][prediction]`, over the evaluated rows.
unfoldable pub confusion : List Row → ClassId → RootCause → ℕ
confusion rows label prediction =
    count_by (λ r. class_eq r.label label && same_prediction r.prediction prediction)
      (evaluated rows)

-- `sum(confusion[label].values())` and `sum(confusion[truth][label] for truth in CLASS_IDS)`
unfoldable pub support : List Row → ClassId → ℕ
support rows label = sum_by (confusion rows label) columns

unfoldable pub predicted : List Row → ClassId → ℕ
predicted rows label = sum_by (λ truth. confusion rows truth (class label)) class_ids

pub record GroupCounts : Type 0 where
  pub bundles : ℕ
  pub bundles_evaluated : ℕ
  pub bundles_excluded : ℕ
  pub schema_failures : ℕ
  pub correct : ℕ
  pub unknown : ℕ
  pub cited_bundles : ℕ
  pub citations_valid : ℕ
  pub citations_invalid : ℕ

is_unknown : RootCause → Bool
is_unknown (class c) = false
is_unknown unknown_cause = true

-- `none` is the `ValueError` of an empty group.
unfoldable pub group_metrics : List Row → Option GroupCounts
unfolding is_unknown
group_metrics [] = none
group_metrics (r ∷ rs) =
    let rows = r ∷ rs in
    let kept = evaluated rows in
    let cited = filter_by (λ row. ltb 0 (row.citations_valid + row.citations_invalid)) kept in
    some (record {
      bundles = length rows;
      bundles_evaluated = length kept;
      bundles_excluded = length rows - length kept;
      schema_failures = count_by (λ row. row.schema_failure) kept;
      correct = count_by is_correct kept;
      unknown = count_by (λ row. is_unknown row.prediction) kept;
      cited_bundles = length cited;
      citations_valid = sum_by (λ row. row.citations_valid) cited;
      citations_invalid = sum_by (λ row. row.citations_invalid) cited;
    })

-- One side only is correct: the discordant counts over the pairs in which neither row is excluded.
abbrev pub Pair : Type 0
Pair = Row × Row

unfoldable pub compared : List Pair → List Pair
compared pairs = filter_by (λ (p : Pair). not (is_excluded p.0 || is_excluded p.1)) pairs

unfoldable pub discordant_left : List Pair → ℕ
discordant_left pairs =
    count_by (λ (p : Pair). is_correct p.0 && not (is_correct p.1)) (compared pairs)

unfoldable pub discordant_right : List Pair → ℕ
discordant_right pairs =
    count_by (λ (p : Pair). not (is_correct p.0) && is_correct p.1) (compared pairs)
