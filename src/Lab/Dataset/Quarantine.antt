-- ===== src/Lab/Dataset/Quarantine.antt =====
-- What the validation of metadata promises.
use airtrace.Prelude.{
  ℕ, ◌≤◌, ◌≡◌, ◌↔◌, refl, ap, sym, subst, ◌∙◌, Bool, true, false, not, Option, none, some, List,
  ◌&&◌, ◌||◌, ltb, arith, Bool-cases, inl, inr,
}
use airtrace.Lab.Dataset.{
  Status, ok, failed, BundleMeta, MetaError, MetaResult, accepted, refused, is_failed, all_passed,
  is_empty_list, reason_if, any_reason, reasons_of, with_health, guard, with_times, both_times,
  validate_meta,
}

-- No reason is left exactly for a run that succeeded, was verified and has a beacon.
pub any_reason_iff :
    (status : Status) (verified healthy : Bool) (beacons : ℕ)
    → (any_reason (reasons_of status verified healthy beacons) ≡ false)
      ↔ (status ≡ ok) × (verified ≡ true) × (healthy ≡ true) × (1 ≤ beacons)
unfolding reasons_of reason_if any_reason is_failed
any_reason_iff ok true true beacons = (λ h. (refl, refl, refl, ground arith), λ h. ground arith)
any_reason_iff ok true false beacons = (λ h. cc, λ h. cc)
any_reason_iff ok false healthy beacons = (λ h. cc, λ h. cc)
any_reason_iff failed verified healthy beacons = (λ h. cc, λ h. cc)

-- A run that may be evaluated.
abbrev pub IsClean : BundleMeta → Type 0
IsClean m =
    (m.status ≡ ok)
    × (m.injection_verified ≡ true)
    × (m.capture_health.healthy ≡ some true)
    × ((n : ℕ) × (m.capture_health.ap_beacons ≡ some n) × (1 ≤ n))

-- What holds of an accepted record.
abbrev pub IsJudged : BundleMeta → Type 0
IsJudged m =
    ((m.quarantined ≡ false) ↔ IsClean m)
    × (m.injection_verified ≡ true → all_passed m.verification ≡ true)
    × ((started : ℕ) × (ended : ℕ) × (m.started_at ≡ some started)
        × (m.ended_at ≡ some ended)
        × (started ≤ ended))

abbrev JudgesWell : MetaResult → Type 0
JudgesWell (refused e) = Unit
JudgesWell (accepted m) = IsJudged m

IsClean-iff :
    (m : BundleMeta) (healthy : Bool) (beacons : ℕ)
    → m.capture_health.healthy ≡ some healthy
    → m.capture_health.ap_beacons ≡ some beacons
    → (any_reason (reasons_of m.status m.injection_verified healthy beacons) ≡ false) ↔ IsClean m
IsClean-iff m healthy beacons h b =
    let parts = any_reason_iff m.status m.injection_verified healthy beacons in
    (
      (λ none_left. let (s, v, w, n) = parts.0 none_left in (s, v, h ∙ ap some w, (beacons, b, n))),
      (λ c.
          let (s, v, w, (n, e, p)) = c in
          let same : healthy ≡ true = ground (arith, sym h ∙ w) in
          let count : beacons ≡ n = ground (arith, sym b ∙ e) in parts.1 (s, v, same, omega arith)),
    )

-- A guard that raises an exception leaves the case that it is false.
behind_guard :
    (raises : Bool) (e : MetaError) (later : MetaResult)
    → (raises ≡ false → JudgesWell later)
    → JudgesWell (guard raises e later)
unfolding guard
behind_guard true e later h = tt
behind_guard false e later h = h refl

-- The checks of a verified injection passed.
verified_passed :
    (verified : Bool) (checks : List Bool)
    → (verified && (is_empty_list checks || not (all_passed checks))) ≡ false
    → verified ≡ true
    → all_passed checks ≡ true
unfolding all_passed is_empty_list
verified_passed verified checks h v = ground arith

in_order : (started ended : ℕ) → ltb ended started ≡ false → started ≤ ended
in_order started ended h = ground arith

module _ (m : BundleMeta) (started ended : ℕ) where
  with_health-JudgesWell :
      (healthy : Option Bool) (beacons : Option ℕ)
      → m.capture_health.healthy ≡ healthy
      → m.capture_health.ap_beacons ≡ beacons
      → (m.injection_verified ≡ true → all_passed m.verification ≡ true)
      → m.started_at ≡ some started
      → m.ended_at ≡ some ended
      → started ≤ ended
      → JudgesWell (with_health m healthy beacons)
  unfolding with_health
  with_health-JudgesWell none beacons h b v s e le = tt
  with_health-JudgesWell (some healthy) none h b v s e le = tt
  with_health-JudgesWell (some healthy) (some beacons) h b v s e le =
      elim (Bool-cases (healthy && ltb beacons 1)) [
        | inl bad ↦ rw bad tt
        | inr good ↦ rw good (IsClean-iff m healthy beacons h b, v, (started, ended, s, e, le))
      ]

  with_times-JudgesWell :
      m.started_at ≡ some started
      → m.ended_at ≡ some ended
      → JudgesWell (with_times m started ended)
  unfolding with_times
  with_times-JudgesWell s e = behind_guard _ _ _ (λ ordered. behind_guard _ _ _ (λ zoned.
      behind_guard _ _ _ (λ typed. behind_guard _ _ _ (λ explained. behind_guard _ _ _ (λ proved.
        with_health-JudgesWell m.capture_health.healthy m.capture_health.ap_beacons refl refl
          (verified_passed m.injection_verified m.verification proved) s e
          (in_order started ended ordered))))))

both_times-JudgesWell :
    (m : BundleMeta) (started ended : Option ℕ)
    → m.started_at ≡ started
    → m.ended_at ≡ ended
    → JudgesWell (both_times m started ended)
unfolding both_times
both_times-JudgesWell m (some started) (some ended) s e = with_times-JudgesWell m started ended s e
both_times-JudgesWell m none ended s e = tt
both_times-JudgesWell m (some started) none s e = tt

-- Accepted metadata is not quarantined exactly where the run succeeded, its injection is verified and
-- its capture is healthy and has a beacon; a verified injection has only passed checks; and the run
-- does not end before it starts.
pub validate_meta-IsJudged : (m out : BundleMeta) → validate_meta m ≡ accepted out → IsJudged out
unfolding validate_meta
validate_meta-IsJudged m out h =
    subst JudgesWell h (both_times-JudgesWell m m.started_at m.ended_at refl refl)
