-- ===== src/Triage/Metrics/Confusion.antt =====
-- The confusion matrix counts each evaluated row once.
use airtrace.Prelude.{
  ℕ, ◌+◌, ◌≡◌, refl, ap, ◌∙◌, Bool, true, false, List, [], ◌∷◌, ◌&&◌, length, count_by, bit, sum_by,
  arith,
}
use airtrace.Triage.Schema.{
  ClassId, ok, wrong_passphrase, akm_mismatch, pmf_required_unsupported, mac_denied, ap_full,
  dhcp_no_server, ap_deauth, ssid_not_found, RootCause, class, unknown_cause,
}
use airtrace.Triage.Metrics.{
  Row, class_ids, class_index, class_eq, predicts, is_correct, columns, same_prediction, evaluated,
  confusion, support,
}

-- Each label is one of the classes, and each prediction one of the columns.
one_class : (c : ClassId) → sum_by (λ l. bit (class_eq c l)) class_ids ≡ 1
unfolding class_eq class_index
one_class ok = refl
one_class wrong_passphrase = refl
one_class akm_mismatch = refl
one_class pmf_required_unsupported = refl
one_class mac_denied = refl
one_class ap_full = refl
one_class dhcp_no_server = refl
one_class ap_deauth = refl
one_class ssid_not_found = refl

one_column : (p : RootCause) → sum_by (λ c. bit (same_prediction p c)) columns ≡ 1
unfolding same_prediction
one_column (class c) = omega (arith, one_class c)
one_column unknown_cause = refl

one_diagonal :
    (label c : ClassId)
    → sum_by (λ l. bit (class_eq label l && class_eq c l)) class_ids ≡ bit (class_eq c label)
unfolding class_eq class_index
one_diagonal ok c = omega arith
one_diagonal wrong_passphrase c = omega arith
one_diagonal akm_mismatch c = omega arith
one_diagonal pmf_required_unsupported c = omega arith
one_diagonal mac_denied c = omega arith
one_diagonal ap_full c = omega arith
one_diagonal dhcp_no_server c = omega arith
one_diagonal ap_deauth c = omega arith
one_diagonal ssid_not_found c = omega arith

no_unknown : (label : ClassId) → sum_by (λ l. bit (class_eq label l && false)) class_ids ≡ 0
unfolding class_eq class_index
no_unknown ok = refl
no_unknown wrong_passphrase = refl
no_unknown akm_mismatch = refl
no_unknown pmf_required_unsupported = refl
no_unknown mac_denied = refl
no_unknown ap_full = refl
no_unknown dhcp_no_server = refl
no_unknown ap_deauth = refl
no_unknown ssid_not_found = refl

one_cell :
    (label : ClassId) (p : RootCause)
    → sum_by (λ l. bit (class_eq label l && same_prediction p (class l))) class_ids
      ≡ bit (predicts p label)
unfolding same_prediction predicts
one_cell label (class c) = one_diagonal label c
one_cell label unknown_cause = no_unknown label

one_row : (b : Bool) (p : RootCause) → sum_by (λ c. bit (b && same_prediction p c)) columns ≡ bit b
one_row true p = one_column p
one_row false p = refl

-- Two sums in the other order.
module _ {A : Type 0} where
  sum_by-zero : (xs : List A) → sum_by (λ x. 0) xs ≡ 0
  sum_by-zero [] = refl
  sum_by-zero (x ∷ xs) = omega (arith, sum_by-zero xs)

  sum_by-add : (f g : A → ℕ) (xs : List A) → sum_by (λ x. f x + g x) xs ≡ sum_by f xs + sum_by g xs
  sum_by-add f g [] = refl
  sum_by-add f g (x ∷ xs) = omega (arith, sum_by-add f g xs)

module _ {A B : Type 0} where
  sum_by-count_by :
      (f : A → B → Bool) (xs : List A) (ys : List B)
      → sum_by (λ x. count_by (f x) ys) xs ≡ sum_by (λ y. sum_by (λ x. bit (f x y)) xs) ys
  sum_by-count_by f xs [] = sum_by-zero xs
  sum_by-count_by f xs (y ∷ ys) =
      sum_by-add (λ x. bit (f x y)) (λ x. count_by (f x) ys) xs
      ∙ ap (◌+◌ (sum_by (λ x. bit (f x y)) xs)) (sum_by-count_by f xs ys)

module _ {A : Type 0} where
  sum_by-same : (f g : A → ℕ) (xs : List A) → ((x : A) → f x ≡ g x) → sum_by f xs ≡ sum_by g xs
  sum_by-same f g [] h = refl
  sum_by-same f g (x ∷ xs) h = omega (arith, h x, sum_by-same f g xs h)

  sum_by-bit : (p : A → Bool) (xs : List A) → sum_by (λ x. bit (p x)) xs ≡ count_by p xs
  sum_by-bit p [] = refl
  sum_by-bit p (x ∷ xs) = omega (arith, sum_by-bit p xs)

  sum_by-one : (xs : List A) → sum_by (λ x. 1) xs ≡ length xs
  sum_by-one [] = refl
  sum_by-one (x ∷ xs) = omega (arith, sum_by-one xs)

support-count :
    (rows : List Row) (label : ClassId)
    → support rows label ≡ count_by (λ r. class_eq r.label label) (evaluated rows)
unfolding support confusion
support-count rows label =
    sum_by-count_by (λ p (r : Row). class_eq r.label label && same_prediction r.prediction p)
      columns (evaluated rows)
    ∙ (sum_by-same _ (λ (r : Row). bit (class_eq r.label label)) (evaluated rows)
          (λ r. one_row (class_eq r.label label) r.prediction)
        ∙ sum_by-bit (λ (r : Row). class_eq r.label label) (evaluated rows))

-- The confusion matrix counts each evaluated row once: the row sum of a class is the number of its
-- rows, all row sums together are the evaluated rows, and the diagonal has the correct ones.
pub confusion_sums :
    (rows : List Row)
    → ((label : ClassId)
        → support rows label ≡ count_by (λ r. class_eq r.label label) (evaluated rows))
      × (sum_by (support rows) class_ids ≡ length (evaluated rows))
      × (sum_by (λ label. confusion rows label (class label)) class_ids
          ≡ count_by is_correct (evaluated rows))
unfolding confusion is_correct
confusion_sums rows = (
  support-count rows,
  sum_by-same (support rows) _ class_ids (support-count rows)
      ∙ (sum_by-count_by (λ label (r : Row). class_eq r.label label) class_ids (evaluated rows)
          ∙ (sum_by-same _ (λ (r : Row). 1) (evaluated rows) (λ r. one_class r.label)
              ∙ sum_by-one (evaluated rows))),
  sum_by-count_by
        (λ label (r : Row). class_eq r.label label && same_prediction r.prediction (class label))
        class_ids (evaluated rows)
      ∙ (sum_by-same _ (λ (r : Row). bit (predicts r.prediction r.label)) (evaluated rows)
            (λ r. one_cell r.label r.prediction)
          ∙ sum_by-bit (λ (r : Row). predicts r.prediction r.label) (evaluated rows)),
)
