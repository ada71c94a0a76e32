-- ===== src/Lab/Manifest/Chain.antt =====
-- The tests of lab/manifest.py on equal values, and its chains of checks.
use airtrace.Prelude.{
  ℕ, ◌≡◌, refl, ap, ◌∙◌, Bool, true, false, Option, none, some, List, [], ◌∷◌, ◌&&◌, ◌||◌, ◌==◌,
  arith,
}
use airtrace.Text.Base.{Text}
use airtrace.Text.Order.{text_eq, text_eq_refl}
use airtrace.Lab.Dataset.{
  Split, dev, test, Reason, run_failed, injection_unverified, capture_unhealthy,
}
use airtrace.Lab.Manifest.{
  Bundle, Details, Summary, Outcome, parameter_ranges, same_range, same_split_ranges, same_ranges,
  BadDataset, Verdict, fine, bad, and_then, require, given, same_bool, split_eq, same_reason,
  same_list, same_option, same_pair, environment_record,
}
use airtrace.Lab.Manifest.Check.{
  entry_of, same_details, same_summary, Place, has_place, all_in, same_dict, agrees_on_observed,
  is_given, entry_keys, has_entry_keys, has_name, names_in,
}

-- One value passes the test against itself.
pub same_bool_refl : (b : Bool) → same_bool b b ≡ true
unfolding same_bool
same_bool_refl true = refl
same_bool_refl false = refl

pub split_eq_refl : (s : Split) → split_eq s s ≡ true
unfolding split_eq
split_eq_refl dev = refl
split_eq_refl test = refl

pub same_reason_refl : (r : Reason) → same_reason r r ≡ true
unfolding same_reason
same_reason_refl run_failed = refl
same_reason_refl injection_unverified = refl
same_reason_refl capture_unhealthy = refl

pub same_list_refl {ℓ} :
    {A : Type ℓ} (eq : A → A → Bool)
    → ((x : A) → eq x x ≡ true)
    → (xs : List A) → same_list eq xs xs ≡ true
unfolding same_list
same_list_refl eq h [] = refl
same_list_refl eq h (x ∷ xs) = rw (h x) (same_list_refl eq h xs)

pub same_option_refl {ℓ} :
    {A : Type ℓ} (eq : A → A → Bool)
    → ((x : A) → eq x x ≡ true)
    → (o : Option A) → same_option eq o o ≡ true
unfolding same_option
same_option_refl eq h none = refl
same_option_refl eq h (some x) = h x

pub same_pair_refl : (p : Text × Text) → same_pair p p ≡ true
unfolding same_pair
same_pair_refl (a, b) = rw (text_eq_refl a) (text_eq_refl b)

pub same_number_refl : (n : ℕ) → (n == n) ≡ true
same_number_refl n = ground arith

pub both_hold : (a b : Bool) → a ≡ true → b ≡ true → (a && b) ≡ true
both_hold true b h k = k
both_hold false b h k = cc

pub same_summary_refl : (s : Summary) → same_summary s s ≡ true
unfolding same_summary
same_summary_refl s = both_hold _ _ (same_number_refl s.total) (
    both_hold _ _ (same_number_refl s.run_failed) (
      both_hold _ _ (same_number_refl s.injection_unverified)
        (same_number_refl s.capture_unhealthy)))

-- Every place of a list is in it.
pub has_place-all_in :
    (q : Place) (ps qs : List Place) → all_in ps qs ≡ true → all_in ps (q ∷ qs) ≡ true
unfolding all_in has_place
has_place-all_in q [] qs h = refl
has_place-all_in q (p ∷ ps) qs h =
    both_hold _ _ (or_right (same_pair q p) (and_left _ _ h))
      (has_place-all_in q ps qs (and_right _ _ h))
  where
    or_right : (a : Bool) {b : Bool} → b ≡ true → (a || b) ≡ true
    or_right true k = refl
    or_right false k = k

    and_left : (a b : Bool) → (a && b) ≡ true → a ≡ true
    and_left true b k = refl
    and_left false b k = cc

    and_right : (a b : Bool) → (a && b) ≡ true → b ≡ true
    and_right true b k = k
    and_right false b k = cc

pub all_in_refl : (ps : List Place) → all_in ps ps ≡ true
unfolding all_in has_place
all_in_refl [] = refl
all_in_refl (p ∷ ps) =
    both_hold _ _ (or_left _ (same_pair_refl p)) (has_place-all_in p ps ps (all_in_refl ps))
  where
    or_left : {a : Bool} (b : Bool) → a ≡ true → (a || b) ≡ true
    or_left b k = rw k refl

same_dict_refl : (ps : List Place) → same_dict ps ps ≡ true
unfolding same_dict
same_dict_refl ps = both_hold _ _ (all_in_refl ps) (all_in_refl ps)

-- The compared fields of an entry depend on the metadata only.
pub same_details_refl :
    (digest : Text → Text) (a b : Bundle) (d : Details)
    → same_details (entry_of digest a d) (entry_of digest b d) ≡ true
unfolding same_details entry_of
same_details_refl digest a b d = both_hold _ _ (same_bool_refl d.meta.quarantined) (
    both_hold _ _ (same_list_refl same_reason same_reason_refl d.meta.quarantine_reasons) (
      both_hold _ _ (same_bool_refl d.meta.injection_verified) (
        both_hold _ _ (same_option_refl same_bool same_bool_refl d.meta.capture_health.healthy) (
          both_hold _ _ (same_option_refl ◌==◌ same_number_refl d.meta.capture_health.ap_beacons) (
            both_hold _ _ (text_eq_refl d.log_scrub) (
              both_hold _ _ (text_eq_refl (environment_record d).kernel)
                (same_dict_refl (environment_record d).tool_versions)))))))

pub has_entry_keys_refl : has_entry_keys entry_keys ≡ true
unfolding has_entry_keys names_in has_name text_eq
has_entry_keys_refl = refl

pub same_ranges_refl :
    same_option same_ranges (some parameter_ranges) (some parameter_ranges) ≡ true
unfolding same_option same_ranges same_split_ranges same_range
same_ranges_refl = refl

pub agrees_on_observed_refl :
    (summary : List Outcome → Text) (outcomes : List Outcome)
    → agrees_on_observed summary (some (summary outcomes)) outcomes ≡ true
unfolding agrees_on_observed is_given same_option
agrees_on_observed_refl summary outcomes = text_eq_refl (summary outcomes)

-- Steps of a chain of checks that go through.
pub require-holds :
    {A : Type 0} (b : Bool) (e : BadDataset) (later out : Verdict A)
    → b ≡ true
    → later ≡ out
    → require b e later ≡ out
unfolding require
require-holds true e later out h k = k
require-holds false e later out h k = cc

pub and_then-fine :
    {A B : Type 0} (v : Verdict A) (a : A) (next : A → Verdict B) (out : Verdict B)
    → v ≡ fine a
    → next a ≡ out
    → and_then v next ≡ out
unfolding and_then
and_then-fine (fine x) a next out h k = let same : x ≡ a = cc in ap next same ∙ k
and_then-fine (bad e) a next out h k = cc

pub given-some :
    {A : Type 0} (o : Option A) (a : A) (e : BadDataset) → o ≡ some a → given o e ≡ fine a
unfolding given
given-some none a e h = cc
given-some (some x) a e h = cc

-- A property of what a chain gives, where it gives something.
abbrev pub OfFine : {A : Type 0} → (A → Type 0) → Verdict A → Type 0
OfFine P (fine a) = P a
OfFine P (bad e) = Unit

pub require-OfFine :
    {A : Type 0} (P : A → Type 0) (b : Bool) (e : BadDataset) (later : Verdict A)
    → (b ≡ true → OfFine P later)
    → OfFine P (require b e later)
unfolding require
require-OfFine P true e later h = h refl
require-OfFine P false e later h = tt

pub and_then-OfFine :
    {A B : Type 0} (P : B → Type 0) (v : Verdict A) (next : A → Verdict B)
    → ((a : A) → v ≡ fine a → OfFine P (next a))
    → OfFine P (and_then v next)
unfolding and_then
and_then-OfFine P (fine a) next h = h a refl
and_then-OfFine P (bad e) next h = tt
