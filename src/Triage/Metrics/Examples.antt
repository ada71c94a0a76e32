-- ===== src/Triage/Metrics/Examples.antt =====
-- Three rows of two groups, and the theorems at them.
use airtrace.Prelude.{◌+◌, ◌≤◌, ◌≡◌, refl, false, List, [], ◌∷◌, length, count_by, sum_by}
use airtrace.Text.Base.{codes}
use airtrace.Triage.Schema.{ClassId, ok, ap_full, mac_denied, RootCause, class, unknown_cause}
use airtrace.Triage.Metrics.{
  Row, RowOutcome, scored, truncated, is_excluded, class_ids, class_eq, is_correct, evaluated,
  confusion, support, Pair, compared, discordant_left, discordant_right,
}
use airtrace.Triage.Metrics.Confusion.{confusion_sums}
use airtrace.Triage.Metrics.Pairs.{discordant_balance}

abbrev row : ClassId → RootCause → RowOutcome → Row
row label prediction outcome = record {
  bundle = codes "b";
  label = label;
  prediction = prediction;
  excluded = false;
  outcome = outcome;
  schema_failure = false;
  citations_valid = 1;
  citations_invalid = 0;
}

abbrev rows : List Row
rows =
    row ok (class ok) scored
    ∷ row ap_full unknown_cause scored
    ∷ row mac_denied (class ok) truncated
    ∷ []

two_evaluated : length (evaluated rows) ≡ 2
unfolding evaluated is_excluded
two_evaluated = refl

confusion_sums_example :
    ((label : ClassId)
      → support rows label ≡ count_by (λ r. class_eq r.label label) (evaluated rows))
    × (sum_by (support rows) class_ids ≡ length (evaluated rows))
    × (sum_by (λ label. confusion rows label (class label)) class_ids
        ≡ count_by is_correct (evaluated rows))
confusion_sums_example = confusion_sums rows

abbrev pairs : List Pair
pairs =
    (row ok (class ok) scored, row ok unknown_cause scored)
    ∷ (row ok (class ok) scored, row ok (class ok) truncated)
    ∷ []

discordant_balance_example :
    (count_by (λ (p : Pair). is_correct p.0) (compared pairs) + discordant_right pairs
      ≡ count_by (λ (p : Pair). is_correct p.1) (compared pairs) + discordant_left pairs)
    × (discordant_left pairs + discordant_right pairs ≤ length (compared pairs))
discordant_balance_example = discordant_balance pairs
