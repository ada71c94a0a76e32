-- ===== src/Triage/Eval/Keys.antt =====
-- Groups with the same bundles and labels, as compute_metrics of triage/metrics.py compares them.
use airtrace.Prelude.{
  ◌≡◌, refl, Bool, true, false, List, [], ◌∷◌, ◌&&◌, ◌||◌, map, All, All-append, Bool-cases, inl,
  inr,
}
use airtrace.Text.Base.{Text}
use airtrace.Text.Order.{text_eq, text_eq_refl, text_le}
use airtrace.Triage.Schema.{
  ClassId, ok, wrong_passphrase, akm_mismatch, pmf_required_unsupported, mac_denied, ap_full,
  dhcp_no_server, ap_deauth, ssid_not_found,
}
use airtrace.Triage.Metrics.{class_eq, class_index}
use airtrace.Triage.Eval.{is_in, all_distinct, EvalRow}
use airtrace.Triage.Eval.Scores.{
  insert_name, add_name, names_of, rows_named, Key, keys_of, ids_of, label_of, same_label, subset,
  consistent, Unscored, Scores, Scored, scores, unless, distinct_in, combinations, compare_pairs,
  has_names, compute_metrics,
}

class_eq_refl : (c : ClassId) → class_eq c c ≡ true
unfolding class_eq class_index
class_eq_refl ok = refl
class_eq_refl wrong_passphrase = refl
class_eq_refl akm_mismatch = refl
class_eq_refl pmf_required_unsupported = refl
class_eq_refl mac_denied = refl
class_eq_refl ap_full = refl
class_eq_refl dhcp_no_server = refl
class_eq_refl ap_deauth = refl
class_eq_refl ssid_not_found = refl

both_hold : (a b : Bool) → a ≡ true → b ≡ true → (a && b) ≡ true
both_hold true b h k = k
both_hold false b h k = cc

or_right : (a b : Bool) → b ≡ true → (a || b) ≡ true
or_right true b h = refl
or_right false b h = h

subset-cons : (t : Text) (xs ys : List Text) → subset xs ys ≡ true → subset xs (t ∷ ys) ≡ true
unfolding subset is_in
subset-cons t [] ys h = refl
subset-cons t (x ∷ xs) ys h = elim (Bool-cases (is_in x ys)) [
  | inl e ↦ both_hold _ _ (or_right (text_eq t x) (is_in x ys) e) (subset-cons t xs ys (rw e at h))
  | inr e ↦ absurd (clash (rw e at h))
]
  where
    clash : ◌≡◌ {A = Bool} false true → ⊥
    clash k = cc

subset_refl : (xs : List Text) → subset xs xs ≡ true
unfolding subset is_in
subset_refl [] = refl
subset_refl (x ∷ xs) =
    both_hold _ _ (rw (text_eq_refl x) refl) (subset-cons x xs xs (subset_refl xs))

-- The label of an id that is in the list is found.
found_label :
    (keys : List Key) (id : Text)
    → is_in id (ids_of keys) ≡ true
    → same_label (label_of keys id) (label_of keys id) ≡ true
unfolding is_in ids_of label_of same_label
found_label [] id h = cc
found_label ((i, l) ∷ rest) id h = elim (Bool-cases (text_eq i id)) [
  | inl e ↦ rw e (class_eq_refl l)
  | inr e ↦ rw e (found_label rest id (rw e at h))
]

consistent_self :
    (ids : List Text) (keys : List Key)
    → subset ids (ids_of keys) ≡ true
    → consistent ids keys keys ≡ true
unfolding consistent subset
consistent_self [] keys h = refl
consistent_self (id ∷ ids) keys h = elim (Bool-cases (is_in id (ids_of keys))) [
  | inl e ↦ both_hold _ _ (found_label keys id e) (consistent_self ids keys (rw e at h))
  | inr e ↦ absurd (clash (rw e at h))
]
  where
    clash : ◌≡◌ {A = Bool} false true → ⊥
    clash k = cc

goes_on :
    (b : Bool) (e : Unscored) (later out : Scored) → b ≡ true → later ≡ out → unless b e later ≡ out
unfolding unless
goes_on true e later out h k = k
goes_on false e later out h k = cc

-- Names that all have the same keys.
module _ (keys : Text → List Key) (common : List Key) where
  abbrev HasCommon : Text → Type 0
  HasCommon n = keys n ≡ common

  HasCommon-insert_name :
      (n : Text) (ns : List Text)
      → HasCommon n
      → All HasCommon ns
      → All HasCommon (insert_name n ns)
  unfolding insert_name
  HasCommon-insert_name n [] h a = (h, tt)
  HasCommon-insert_name n (x ∷ xs) h (k, a) = elim (Bool-cases (text_le n x)) [
    | inl e ↦ rw e (h, (k, a))
    | inr e ↦ rw e (k, HasCommon-insert_name n xs h a)
  ]

  HasCommon-add_name :
      (n : Text) (ns : List Text) → HasCommon n → All HasCommon ns → All HasCommon (add_name n ns)
  unfolding add_name
  HasCommon-add_name n ns h a = elim (Bool-cases (is_in n ns)) [
    | inl e ↦ rw e a
    | inr e ↦ rw e (HasCommon-insert_name n ns h a)
  ]

  HasCommon-names_of :
      (rows : List EvalRow)
      → All (λ (r : EvalRow). HasCommon r.group) rows
      → All HasCommon (names_of rows)
  unfolding names_of
  HasCommon-names_of [] a = tt
  HasCommon-names_of (r ∷ rs) (h, a) =
      HasCommon-add_name r.group (names_of rs) h (HasCommon-names_of rs a)

  distinct_common :
      (ns : List Text)
      → all_distinct (ids_of common) ≡ true
      → All HasCommon ns
      → distinct_in keys ns ≡ true
  unfolding distinct_in
  distinct_common [] d a = refl
  distinct_common (n ∷ ns) d (h, a) = both_hold _ _ (rw h d) (distinct_common ns d a)

  abbrev BothCommon : Text × Text → Type 0
  BothCommon pair = HasCommon pair.0 × HasCommon pair.1

  BothCommon-combinations : (ns : List Text) → All HasCommon ns → All BothCommon (combinations ns)
  unfolding combinations
  BothCommon-combinations [] a = tt
  BothCommon-combinations (n ∷ ns) (h, a) =
      All-append BothCommon _ _ (with_first ns a) (BothCommon-combinations ns a)
    where
      with_first :
          (ms : List Text) → All HasCommon ms → All BothCommon (map (λ (m : Text). (n, m)) ms)
      with_first [] b = tt
      with_first (m ∷ ms) (k, b) = ((h, k), with_first ms b)

  compare_common :
      (pairs : List (Text × Text)) (later : Scored)
      → All BothCommon pairs
      → compare_pairs keys pairs later ≡ later
  unfolding compare_pairs unless
  compare_common [] later a = refl
  compare_common ((l, r) ∷ rest) later ((h, k), a) =
      goes_on _ _ _ _ (both_hold _ _ (within l r h k) (within r l k h))
        (goes_on _ _ _ _ (consistent_pair l r h k) (compare_common rest later a))
    where
      within :
          (x y : Text)
          → HasCommon x
          → HasCommon y
          → subset (ids_of (keys x)) (ids_of (keys y)) ≡ true
      within x y p q = rw p (rw q (subset_refl (ids_of common)))

      consistent_pair :
          (x y : Text)
          → HasCommon x
          → HasCommon y
          → consistent (ids_of (keys x)) (keys x) (keys y) ≡ true
      consistent_pair x y p q =
          rw p (rw q (consistent_self (ids_of common) common (subset_refl (ids_of common))))

has_names-add_name : (n : Text) (ns : List Text) → has_names (add_name n ns) ≡ true
unfolding add_name has_names is_in insert_name
has_names-add_name n [] = inserted n []
  where
    inserted : (m : Text) (ms : List Text) → has_names (insert_name m ms) ≡ true
    inserted m [] = refl
    inserted m (x ∷ xs) = elim (Bool-cases (text_le m x)) [ inl e ↦ rw e refl | inr e ↦ rw e refl ]
has_names-add_name n (x ∷ xs) = elim (Bool-cases (is_in n (x ∷ xs))) [
  | inl e ↦ rw e refl
  | inr e ↦ rw e (elim (Bool-cases (text_le n x)) [ inl f ↦ rw f refl | inr f ↦ rw f refl ])
]

-- Rows whose groups all have the same keys are scored.
pub compute_metrics-common :
    (r : EvalRow) (rest : List EvalRow) (common : List Key)
    → all_distinct (ids_of common) ≡ true
    → All (λ (x : EvalRow). keys_of (rows_named (r ∷ rest) x.group) ≡ common) (r ∷ rest)
    → (s : Scores) × (compute_metrics (r ∷ rest) ≡ scores s)
unfolding compute_metrics names_of
compute_metrics-common r rest common d a =
    let keys = λ (n : Text). keys_of (rows_named (r ∷ rest) n) in
    let names = HasCommon-names_of keys common (r ∷ rest) a in
    (
      _,
      goes_on _ _ _ _ (has_names-add_name r.group (names_of rest)) (
          goes_on _ _ _ _ (distinct_common keys common (names_of (r ∷ rest)) d names) (
            compare_common keys common (combinations (names_of (r ∷ rest))) _
              (BothCommon-combinations keys common (names_of (r ∷ rest)) names))),
    )
