-- ===== src/Triage/Eval/Accounts.antt =====
-- The exclusion of a row of triage/eval.py, as triage/metrics.py reads it.
use airtrace.Prelude.{◌≡◌, ◌↔◌, false, Option, none, some}
use airtrace.Triage.Metrics.{scored, is_excluded}
use airtrace.Triage.Eval.{Exclusion, Ran, EvalRow}

-- The method came to an answer that counts, or raised: its row is evaluated.
abbrev pub Counts : Option Ran → Type 0
Counts none = Unit
Counts (some ran) = ran.outcome ≡ scored

abbrev pub Accounts : Option Exclusion → Option Ran → EvalRow → Type 0
Accounts o ran r =
    (is_excluded r.row ≡ r.row.excluded)
    × ((r.row.excluded ≡ false) ↔ (r.reason ≡ none))
    × ((r.reason ≡ none) ↔ (o ≡ none) × Counts ran)
