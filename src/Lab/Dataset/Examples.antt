-- ===== src/Lab/Dataset/Examples.antt =====
-- The metadata of a clean run and a schedule, and the theorems at them.
use airtrace.Prelude.{ℕ, ◌≡◌, refl, Bool, true, false, none, some, List, [], ◌∷◌, All}
use airtrace.Lab.Dataset.{
  Split, test, ok, BundleMeta, accepted, is_naive, is_failed, lacks_error, all_passed,
  is_empty_list, reason_if, any_reason, reasons_of, with_health, guard, with_times, both_times,
  validate_meta, complete_class, same_split, seed_schedule,
}
use airtrace.Lab.Dataset.Quarantine.{IsJudged, validate_meta-IsJudged}
use airtrace.Lab.Dataset.Schedule.{Grows, InRange, seed_schedule-Grows}

abbrev meta : Bool → BundleMeta
meta quarantined = record {
  started_at = some 10;
  ended_at = some 20;
  scenario_started_at = none;
  observed_types = true;
  status = ok;
  error = none;
  injection_verified = true;
  verification = true ∷ true ∷ [];
  capture_health = record { healthy = some true; ap_beacons = some 3 };
  quarantined = quarantined;
  quarantine_reasons = [];
}

runs : Unit {0}
unfolding validate_meta both_times with_times guard with_health reasons_of any_reason reason_if
    is_naive is_failed lacks_error all_passed is_empty_list seed_schedule complete_class same_split
runs = tt

is_accepted : validate_meta (meta true) ≡ accepted (meta false)
unfolding runs
is_accepted = refl

validate_meta-IsJudged_example : IsJudged (meta false)
validate_meta-IsJudged_example = validate_meta-IsJudged (meta true) (meta false) is_accepted

abbrev drawn : List (Split × ℕ)
drawn = (test, 1100) ∷ (test, 1101) ∷ []

is_drawn : seed_schedule 1000 6 (some test) ≡ some drawn
unfolding runs
is_drawn = refl

seed_schedule-Grows_example :
    Grows 1000 drawn
    × All (InRange 1000) drawn
    × All (λ (e : Split × ℕ). same_split (some test) e.0 ≡ true) drawn
seed_schedule-Grows_example = seed_schedule-Grows 1000 6 (some test) drawn is_drawn
