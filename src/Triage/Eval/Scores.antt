-- ===== src/Triage/Eval/Scores.antt =====
-- compute_metrics of triage/metrics.py over the rows of an evaluation: its groups and their comparison.
use airtrace.Prelude.{
  ◌-◌, ℕ, Bool, true, false, Option, none, some, List, [], ◌∷◌, ◌++◌, ◌&&◌, map, filter_by, length,
  if◌then◌else◌,
}
use airtrace.Text.Base.{Text}
use airtrace.Text.Order.{text_eq, text_le}
use airtrace.Triage.Schema.{ClassId}
use airtrace.Triage.Metrics.{
  Row, GroupCounts, group_metrics, class_eq, Pair, compared, discordant_left, discordant_right,
}
use airtrace.Triage.Eval.{EvalRow, is_in, all_distinct}

-- `sorted(grouped)`: the names of the groups, each once.
unfoldable pub insert_name : Text → List Text → List Text
insert_name t [] = t ∷ []
insert_name t (x ∷ xs) = let rest = insert_name t xs in if text_le t x then t ∷ x ∷ xs else x ∷ rest

unfoldable pub add_name : Text → List Text → List Text
add_name t names = if is_in t names then names else insert_name t names

unfoldable pub names_of : List EvalRow → List Text
names_of [] = []
names_of (r ∷ rs) = add_name r.group (names_of rs)

unfoldable pub rows_named : List EvalRow → Text → List Row
rows_named rows name =
    map (λ (r : EvalRow). r.row) (filter_by (λ (r : EvalRow). text_eq r.group name) rows)

-- A row by its bundle, with its label.
abbrev pub Key : Type 0
Key = Text × ClassId

unfoldable pub keys_of : List Row → List Key
keys_of rows = map (λ (r : Row). (r.bundle, r.label)) rows

unfoldable pub ids_of : List Key → List Text
ids_of keys = map (λ (k : Key). k.0) keys

unfoldable pub label_of : List Key → Text → Option ClassId
label_of [] id = none
label_of ((i, l) ∷ rest) id = let later = label_of rest id in if text_eq i id then some l else later

unfoldable pub same_label : Option ClassId → Option ClassId → Bool
same_label (some a) (some b) = class_eq a b
same_label _ _ = false

unfoldable pub subset : List Text → List Text → Bool
subset [] ys = true
subset (x ∷ xs) ys = is_in x ys && subset xs ys

unfoldable pub consistent : List Text → List Key → List Key → Bool
consistent [] a b = true
consistent (id ∷ ids) a b = same_label (label_of a id) (label_of b id) && consistent ids a b

-- The exceptions.
pub data Unscored : Type 0 where
  no_rows repeated_bundle other_bundles other_labels : Unscored

pub record Comparison : Type 0 where
  pub left : Text
  pub right : Text
  pub bundles : ℕ
  pub bundles_excluded : ℕ
  pub only_left : ℕ
  pub only_right : ℕ

-- The counts by group, and the comparisons of two groups.
pub record Scores : Type 0 where
  pub groups : List (Text × Option GroupCounts)
  pub paired : List Comparison

pub data Scored : Type 0 where
  scores : Scores → Scored
  unscored : Unscored → Scored

unfoldable pub unless : Bool → Unscored → Scored → Scored
unless true e later = later
unless false e later = unscored e

unfoldable pub distinct_in : (Text → List Key) → List Text → Bool
distinct_in keys [] = true
distinct_in keys (n ∷ ns) = all_distinct (ids_of (keys n)) && distinct_in keys ns

-- `itertools.combinations(names, 2)`
unfoldable pub combinations : List Text → List (Text × Text)
combinations [] = []
combinations (n ∷ ns) = map (λ (m : Text). (n, m)) ns ++ combinations ns

-- The loop over the pairs of groups, up to a first exception.
unfoldable pub compare_pairs : (Text → List Key) → List (Text × Text) → Scored → Scored
compare_pairs keys [] later = later
compare_pairs keys ((l, r) ∷ rest) later =
    unless
      (subset (ids_of (keys l)) (ids_of (keys r)) && subset (ids_of (keys r)) (ids_of (keys l)))
      other_bundles
      (unless (consistent (ids_of (keys l)) (keys l) (keys r)) other_labels
        (compare_pairs keys rest later))

-- The row of a bundle in each of two groups, and the discordant counts.
unfoldable pub row_at : List Row → Text → Option Row
row_at [] id = none
row_at (r ∷ rs) id = let later = row_at rs id in if text_eq r.bundle id then some r else later

unfoldable pub add_pair : Option Row → Option Row → List Pair → List Pair
add_pair (some a) (some b) pairs = (a, b) ∷ pairs
add_pair _ _ pairs = pairs

unfoldable pub pairs_at : List Text → List Row → List Row → List Pair
pairs_at [] a b = []
pairs_at (id ∷ ids) a b = add_pair (row_at a id) (row_at b id) (pairs_at ids a b)

unfoldable pub comparison : (Text → List Row) → Text × Text → Comparison
comparison rows (l, r) =
    let pairs = pairs_at (ids_of (keys_of (rows l))) (rows l) (rows r) in
    record {
      left = l;
      right = r;
      bundles = length (compared pairs);
      bundles_excluded = length (keys_of (rows l)) - length (compared pairs);
      only_left = discordant_left pairs;
      only_right = discordant_right pairs;
    }

unfoldable pub has_names : List Text → Bool
has_names [] = false
has_names (n ∷ ns) = true

-- `compute_metrics`
unfoldable pub compute_metrics : List EvalRow → Scored
compute_metrics rows =
    let names = names_of rows in
    let keys = λ (n : Text). keys_of (rows_named rows n) in
    unless (has_names names) no_rows (
      unless (distinct_in keys names) repeated_bundle (
        compare_pairs keys (combinations names) (
          scores (record {
            groups = map (λ (n : Text). (n, group_metrics (rows_named rows n))) names;
            paired = map (comparison (rows_named rows)) (combinations names);
          }))))
