-- ===== src/Lab/Run/Bundle/Accepted.antt =====
-- The metadata of a run is always accepted, and what an evaluated run went through.
use airtrace.Prelude.{
  ℕ, ◌≤◌, ◌≡◌, refl, sym, subst, Bool, true, false, not, Option, none, some, List, [], ◌∷◌, ◌++◌,
  ◌&&◌, ◌||◌, ltb, arith,
}
use airtrace.Text.Base.{Text}
use airtrace.Triage.Schema.{ClassId}
use airtrace.Lab.Dataset.{
  Status, ok, failed, BundleMeta, MetaResult, MetaError, Reason, accepted, reasons_of, any_reason,
  with_health, CaptureHealth, validate_meta, both_times, with_times, guard, with_health, is_naive,
  is_failed, lacks_error, all_passed, is_empty_list,
}
use airtrace.Lab.Run.Bundle.{
  Raised, Phase, finished, raised, described, Nothing, Window, Phases, Metadata, append_error,
  after_steps, after_close, checked, after_verification, after_cleanup, health_of, first_empty,
  visible_files, Sizes, mark_empty, after_sizes, collect, wrapped, meta_of,
}

-- What every phase keeps: a failed run has an error, a verified one has checks that passed.
abbrev pub IsSound : Metadata → Type 0
IsSound m =
    (m.status ≡ failed → lacks_error m.error ≡ false)
    × (m.injection_verified ≡ true
        → (is_empty_list m.verification ≡ false) × (all_passed m.verification ≡ true))

described-error : (e : Raised) → lacks_error (some (described e)) ≡ false
unfolding lacks_error described
described-error e = by_name e.class_name
  where
    by_name : (n : Text) → lacks_error (some (n ++ (58 ∷ 32 ∷ e.text))) ≡ false
    by_name [] = refl
    by_name (c ∷ cs) = refl

append_error-error :
    (before : Option Text) (c : ℕ) (cs : Text) → lacks_error (append_error before (c ∷ cs)) ≡ false
unfolding lacks_error append_error
append_error-error none c cs = refl
append_error-error (some []) c cs = refl
append_error-error (some (d ∷ ds)) c cs = refl

after_steps-IsSound : (o : Phase Nothing) → IsSound (after_steps o)
unfolding after_steps
after_steps-IsSound (finished x) = ((λ h. cc), (λ h. cc))
after_steps-IsSound (raised e) = ((λ h. described-error e), (λ h. cc))

after_close-IsSound : (m : Metadata) (o : Phase Window) → IsSound m → IsSound (after_close m o)
unfolding after_close
after_close-IsSound m (finished w) s = s
after_close-IsSound m (raised e) s = ((λ h. append_error-error m.error _ _), s.1)

checked-IsSound :
    (m : Metadata) (o : Phase (List Bool))
    → ((checks : List Bool) → o ≡ finished checks → is_empty_list checks ≡ false)
    → IsSound m
    → IsSound (checked m o)
unfolding checked
checked-IsSound m (finished checks) some_checks s = (s.0, (λ h. (some_checks checks refl, h)))
checked-IsSound m (raised e) some_checks s = (s.0, (λ h. cc))

after_verification-IsSound :
    (m : Metadata) (status : Status) (o : Phase (List Bool))
    → ((checks : List Bool) → o ≡ finished checks → is_empty_list checks ≡ false)
    → IsSound m
    → IsSound (after_verification m status o)
unfolding after_verification
after_verification-IsSound m ok o some_checks s = checked-IsSound m o some_checks s
after_verification-IsSound m failed o some_checks s = s

after_cleanup-IsSound :
    (m : Metadata) (errors : List Text) → IsSound m → IsSound (after_cleanup m errors)
unfolding after_cleanup
after_cleanup-IsSound m [] s = s
after_cleanup-IsSound m (e ∷ es) s = ((λ h. append_error-error m.error _ _), s.1)

mark_empty-IsSound : (m : Metadata) (o : Option Text) → IsSound m → IsSound (mark_empty m o)
unfolding mark_empty lacks_error
mark_empty-IsSound m none s = s
mark_empty-IsSound m (some name) s = ((λ h. refl), s.1)

after_sizes-IsSound :
    (server : Bool) (m : Metadata) (status : Status) (sizes : Sizes)
    → IsSound m
    → IsSound (after_sizes server m status sizes)
unfolding after_sizes
after_sizes-IsSound server m ok sizes s =
    mark_empty-IsSound m (first_empty server (visible_files sizes)) s
after_sizes-IsSound server m failed sizes s = s

pub collect-IsSound :
    (c : ClassId) (p : Phases)
    → ((checks : List Bool) → p.verification ≡ finished checks → is_empty_list checks ≡ false)
    → IsSound (collect c p)
unfolding collect
collect-IsSound c p some_checks = after_sizes-IsSound _ _ _ p.sizes (
    after_cleanup-IsSound _ p.cleanup_errors (
      after_verification-IsSound _ _ p.verification some_checks
        (after_close-IsSound _ p.close (after_steps-IsSound p.steps))))

failed_lacks_none :
    (status : Status) (error : Option Text)
    → (status ≡ failed → lacks_error error ≡ false)
    → (is_failed status && lacks_error error) ≡ false
unfolding is_failed
failed_lacks_none ok error h = refl
failed_lacks_none failed error h = h refl

proved_injection :
    (verified : Bool) (checks : List Bool)
    → (verified ≡ true → (is_empty_list checks ≡ false) × (all_passed checks ≡ true))
    → (verified && (is_empty_list checks || not (all_passed checks))) ≡ false
proved_injection true checks h = let (e, a) = h refl in ground (arith, e, a)
proved_injection false checks h = refl

pass :
    (b : Bool) (e : MetaError) (later out : MetaResult)
    → b ≡ false
    → later ≡ out
    → guard b e later ≡ out
unfolding guard
pass true e later out h k = cc
pass false e later out h k = k

-- The health that a run records, and the reasons that follow from it.
abbrev pub reasons_for : Metadata → Phase ℕ → List Reason
reasons_for m (finished n) = reasons_of m.status m.injection_verified (ltb 0 n) n
reasons_for m (raised e) = reasons_of m.status m.injection_verified false 0

judged_as : BundleMeta → Bool → ℕ → BundleMeta
judged_as b healthy beacons =
    let reasons = reasons_of b.status b.injection_verified healthy beacons in
    record b { quarantined = any_reason reasons; quarantine_reasons = reasons }

with_health-accepted :
    (b : BundleMeta) (healthy : Bool) (beacons : ℕ)
    → (healthy && ltb beacons 1) ≡ false
    → with_health b (some healthy) (some beacons) ≡ accepted (judged_as b healthy beacons)
unfolding with_health judged_as
with_health-accepted b healthy beacons h = rw h refl

with_health-health_of :
    (b : BundleMeta) (m : Metadata) (o : Phase ℕ)
    → b.status ≡ m.status
    → b.injection_verified ≡ m.injection_verified
    → (out : BundleMeta) × (with_health b (health_of o).healthy (health_of o).ap_beacons
        ≡ accepted out)
      × (out.quarantined ≡ any_reason (reasons_for m o))
unfolding health_of judged_as
with_health-health_of b m (finished n) s v =
    (judged_as b (ltb 0 n) n, with_health-accepted b (ltb 0 n) n (ground arith), rw s (rw v refl))
with_health-health_of b m (raised e) s v =
    (judged_as b false 0, with_health-accepted b false 0 refl, rw s (rw v refl))

-- Sound metadata is accepted where the end is not before the start.
pub validate_meta-meta_of :
    (p : Phases) (m : Metadata) (o : Phase ℕ)
    → p.started_at ≤ p.ended_at
    → p.observed_types ≡ true
    → IsSound m
    → m.health ≡ health_of o
    → (out : BundleMeta) × (validate_meta (meta_of p m) ≡ accepted out)
      × (out.quarantined ≡ any_reason (reasons_for m o))
unfolding validate_meta both_times with_times meta_of is_naive wrapped
validate_meta-meta_of p m o le typed s h =
    let b = meta_of p m in
    let (out, e, q) = with_health-health_of b m o refl refl in
    let measured =
      subst (λ (k : CaptureHealth). with_health b k.healthy k.ap_beacons ≡ accepted out) (sym h)
        e in
    (
      out,
      pass _ _ _ _ (ground arith) (
          pass _ _ _ _ (not_naive p.scenario_started_at) (
            pass _ _ _ _ (rw typed refl) (
              pass _ _ _ _ (failed_lacks_none m.status m.error s.0) (
                pass _ _ _ _ (proved_injection m.injection_verified m.verification s.1)
                  measured)))),
      q,
    )
  where
    not_naive : (t : Option ℕ) → is_naive (wrapped t) ≡ false
    not_naive none = refl
    not_naive (some x) = refl
