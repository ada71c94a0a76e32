-- ===== src/Lab/Dataset.antt =====
-- lab/manifest.py and lab/scenarios.py: bundle metadata, quarantine and the seed schedule. Times are
-- natural numbers of one clock, `none` for a time without a timezone.
pub mod Quarantine
pub mod Schedule
mod Examples
use airtrace.Prelude.{
  ℕ, ◌+◌, Bool, true, false, not, Option, none, some, List, [], ◌∷◌, ◌++◌, ◌&&◌, ◌||◌, leb, ltb,
  length, take, count_by, range, map, filter_by, if◌then◌else◌,
}
use airtrace.Text.Base.{Text, codes}

pub data Split : Type 0 where
  dev test : Split

pub data Status : Type 0 where
  ok failed : Status

pub data Reason : Type 0 where
  run_failed injection_unverified capture_unhealthy : Reason

-- `capture_health`: `none` where a value is of another type; a missing count is 0.
pub record CaptureHealth : Type 0 where
  pub healthy : Option Bool
  pub ap_beacons : Option ℕ

-- The fields that the validator reads. `scenario_started_at` is absent, naive or a time;
-- `observed_types` says that the fields of `observed` have their types; a check is its `passed is True`.
pub record BundleMeta : Type 0 where
  pub started_at : Option ℕ
  pub ended_at : Option ℕ
  pub scenario_started_at : Option (Option ℕ)
  pub observed_types : Bool
  pub status : Status
  pub error : Option Text
  pub injection_verified : Bool
  pub verification : List Bool
  pub capture_health : CaptureHealth
  pub quarantined : Bool
  pub quarantine_reasons : List Reason

-- The exceptions of `valid_times_and_failure`.
pub data MetaError : Type 0 where
  no_timezone ends_before_start scenario_no_timezone bad_observed : MetaError
  missing_error unproved_injection bad_health bad_beacons no_beacon : MetaError

pub data MetaResult : Type 0 where
  refused : MetaError → MetaResult
  accepted : BundleMeta → MetaResult

unfoldable pub is_naive : Option (Option ℕ) → Bool
is_naive (some none) = true
is_naive _ = false

unfoldable pub is_failed : Status → Bool
is_failed ok = false
is_failed failed = true

-- `not self.error`
unfoldable pub lacks_error : Option Text → Bool
lacks_error none = true
lacks_error (some []) = true
lacks_error (some (c ∷ cs)) = false

unfoldable pub all_passed : List Bool → Bool
all_passed [] = true
all_passed (p ∷ ps) = p && all_passed ps

unfoldable pub is_empty_list : List Bool → Bool
is_empty_list [] = true
is_empty_list (p ∷ ps) = false

unfoldable pub reason_if : Bool → Reason → List Reason
reason_if true r = r ∷ []
reason_if false r = []

unfoldable pub any_reason : List Reason → Bool
any_reason [] = false
any_reason (r ∷ rs) = true

-- The reasons, for a health and a beacon count that passed the checks.
unfoldable pub reasons_of : Status → Bool → Bool → ℕ → List Reason
unfolding is_failed reason_if
reasons_of status verified healthy beacons =
    reason_if (is_failed status) run_failed
    ++ (reason_if (not verified) injection_unverified
        ++ reason_if (not healthy || ltb beacons 1) capture_unhealthy)

-- The last part: the checks of the capture's health, and the quarantine.
unfoldable pub with_health : BundleMeta → Option Bool → Option ℕ → MetaResult
unfolding any_reason
with_health m none beacons = refused bad_health
with_health m (some healthy) none = refused bad_beacons
with_health m (some healthy) (some beacons) =
    let reasons = reasons_of m.status m.injection_verified healthy beacons in
    if healthy && ltb beacons 1
    then refused no_beacon
    else accepted (record m { quarantined = any_reason reasons; quarantine_reasons = reasons })

-- `if raises: raise ValueError(...)`
unfoldable pub guard : Bool → MetaError → MetaResult → MetaResult
guard true e later = refused e
guard false e later = later

unfoldable pub with_times : BundleMeta → ℕ → ℕ → MetaResult
unfolding is_naive is_failed lacks_error is_empty_list
with_times m started ended = guard (ltb ended started) ends_before_start (
    guard (is_naive m.scenario_started_at) scenario_no_timezone (
      guard (not m.observed_types) bad_observed (
        guard (is_failed m.status && lacks_error m.error) missing_error (
          guard
            (m.injection_verified
              && (is_empty_list m.verification || not (all_passed m.verification)))
            unproved_injection
            (with_health m m.capture_health.healthy m.capture_health.ap_beacons)))))

unfoldable pub both_times : BundleMeta → Option ℕ → Option ℕ → MetaResult
both_times m (some started) (some ended) = with_times m started ended
both_times m _ _ = refused no_timezone

-- `valid_times_and_failure`
unfoldable pub validate_meta : BundleMeta → MetaResult
validate_meta m = both_times m m.started_at m.ended_at

-- `seed_schedule`: the draws of a complete class, cut to `per_class`; the split `none` is "all", and
-- the result `none` is the `ValueError`.
unfoldable pub complete_class : ℕ → List (Split × ℕ)
complete_class seed_base =
    map (λ seed. (dev, seed)) (range seed_base 4)
    ++ map (λ seed. (test, seed)) (range (seed_base + 100) 8)

unfoldable pub same_split : Option Split → Split → Bool
same_split none s = true
same_split (some dev) dev = true
same_split (some test) test = true
same_split (some _) _ = false

unfoldable pub seed_schedule : ℕ → ℕ → Option Split → Option (List (Split × ℕ))
seed_schedule seed_base per_class split =
    if not (leb 1 per_class && leb per_class 12)
    then none
    else some (
        filter_by (λ (e : Split × ℕ). same_split split e.0)
          (take per_class (complete_class seed_base)))
