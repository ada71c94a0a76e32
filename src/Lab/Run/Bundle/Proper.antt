-- ===== src/Lab/Run/Bundle/Proper.antt =====
-- The runs of run_bundle in lab/run_lab.py that are not quarantined.
use airtrace.Prelude.{
  ℕ, ◌≤◌, ◌≡◌, ◌↔◌, refl, sym, ◌∙◌, Bool, true, false, Option, none, some, List, [], ◌∷◌, ltb,
  arith,
}
use airtrace.Text.Base.{Text}
use airtrace.Triage.Schema.{ClassId}
use airtrace.Lab.Scenarios.{scenario}
use airtrace.Lab.Dataset.{Status, ok, failed, BundleMeta, accepted, any_reason, is_empty_list}
use airtrace.Lab.Dataset.Quarantine.{any_reason_iff}
use airtrace.Lab.Run.Bundle.{
  Phase, finished, raised, Nothing, nothing, Window, Phases, Metadata, after_steps, after_close,
  checked, after_verification, after_cleanup, health_of, first_empty, Sizes, visible_files,
  mark_empty, after_sizes, collect, run_bundle,
}
use airtrace.Lab.Run.Bundle.Outputs.{AllPassed, all_passed_iff, HasOutputs, first_empty_iff}
use airtrace.Lab.Run.Bundle.Accepted.{collect-IsSound, reasons_for, validate_meta-meta_of}

-- A run that went through: each phase came to its end, the injection was verified by checks that all
-- passed, nothing failed in the cleanup, a beacon was counted and no required file is empty.
abbrev pub WentThrough : ClassId → Phases → Type 0
WentThrough c p =
    (p.steps ≡ finished nothing)
    × ((w : Window) × (p.close ≡ finished w))
    × ((checks : List Bool) × (p.verification ≡ finished checks) × AllPassed checks)
    × (p.cleanup_errors ≡ [])
    × ((n : ℕ) × (p.beacons ≡ finished n) × (1 ≤ n))
    × HasOutputs c p.sizes

-- The last two stages keep a run clean exactly where they have nothing to report.
mark_empty_ok :
    (m : Metadata) (o : Option Text) → ((mark_empty m o).status ≡ ok) ↔ (m.status ≡ ok) × (o ≡ none)
unfolding mark_empty
mark_empty_ok m none = (λ h. (h, refl), λ h. h.0)
mark_empty_ok m (some name) = (λ h. cc, λ h. cc)

after_sizes_ok :
    (server : Bool) (m : Metadata) (status : Status) (sizes : Sizes)
    → m.status ≡ status
    → ((after_sizes server m status sizes).status ≡ ok)
      ↔ (m.status ≡ ok) × (first_empty server (visible_files sizes) ≡ none)
unfolding after_sizes
after_sizes_ok server m ok sizes e = mark_empty_ok m (first_empty server (visible_files sizes))
after_sizes_ok server m failed sizes e = (λ h. cc, λ h. cc)

mark_empty-verified :
    (m : Metadata) (o : Option Text) → (mark_empty m o).injection_verified ≡ m.injection_verified
unfolding mark_empty
mark_empty-verified m none = refl
mark_empty-verified m (some name) = refl

after_sizes-verified :
    (server : Bool) (m : Metadata) (status : Status) (sizes : Sizes)
    → (after_sizes server m status sizes).injection_verified ≡ m.injection_verified
unfolding after_sizes
after_sizes-verified server m ok sizes =
    mark_empty-verified m (first_empty server (visible_files sizes))
after_sizes-verified server m failed sizes = refl

mark_empty-health : (m : Metadata) (o : Option Text) → (mark_empty m o).health ≡ m.health
unfolding mark_empty
mark_empty-health m none = refl
mark_empty-health m (some name) = refl

after_sizes-health :
    (server : Bool) (m : Metadata) (status : Status) (sizes : Sizes)
    → (after_sizes server m status sizes).health ≡ m.health
unfolding after_sizes
after_sizes-health server m ok sizes =
    mark_empty-health m (first_empty server (visible_files sizes))
after_sizes-health server m failed sizes = refl

-- The stages up to the cleanup, on their outcomes.
up_to_cleanup : Phase Nothing → Phase Window → Phase (List Bool) → List Text → Metadata
up_to_cleanup s w v errors =
    let closed = after_close (after_steps s) w in
    after_cleanup (after_verification closed closed.status v) errors

IsVerified : Phase Nothing → Phase Window → Phase (List Bool) → List Text → Type 0
IsVerified s w v errors =
    (s ≡ finished nothing)
    × ((x : Window) × (w ≡ finished x))
    × ((checks : List Bool) × (v ≡ finished checks) × AllPassed checks)
    × (errors ≡ [])

up_to_cleanup_iff :
    (s : Phase Nothing) (w : Phase Window) (v : Phase (List Bool)) (errors : List Text)
    → ((up_to_cleanup s w v errors).status ≡ ok)
        × ((up_to_cleanup s w v errors).injection_verified ≡ true)
      ↔ IsVerified s w v errors
unfolding up_to_cleanup IsVerified after_steps after_close after_verification checked after_cleanup
up_to_cleanup_iff (finished nothing) (finished x) (finished checks) [] = (
  λ h. (refl, (x, refl), (checks, refl, (all_passed_iff checks).0 h.1), refl),
  λ h. (
    refl,
    let (a, b, (l, e, q), r) = h in let k = (all_passed_iff l).1 q in ground (arith, e, k),
  ),
)
up_to_cleanup_iff (finished nothing) (finished x) (finished checks) (e ∷ es) = (λ h. cc, λ h. cc)
up_to_cleanup_iff (finished nothing) (finished x) (raised e) [] = (λ h. cc, λ h. cc)
up_to_cleanup_iff (finished nothing) (finished x) (raised e) (f ∷ es) = (λ h. cc, λ h. cc)
up_to_cleanup_iff (finished nothing) (raised e) v [] = (λ h. cc, λ h. cc)
up_to_cleanup_iff (finished nothing) (raised e) v (f ∷ es) = (λ h. cc, λ h. cc)
up_to_cleanup_iff (raised e) (finished x) v [] = (λ h. cc, λ h. cc)
up_to_cleanup_iff (raised e) (finished x) v (g ∷ es) = (λ h. cc, λ h. cc)
up_to_cleanup_iff (raised e) (raised f) v [] = (λ h. cc, λ h. cc)
up_to_cleanup_iff (raised e) (raised f) v (g ∷ es) = (λ h. cc, λ h. cc)

-- The reasons are none exactly for a clean status, a verified injection and a counted beacon.
reasons_for_iff :
    (m : Metadata) (o : Phase ℕ)
    → (any_reason (reasons_for m o) ≡ false)
      ↔ (m.status ≡ ok) × (m.injection_verified ≡ true) × ((n : ℕ) × (o ≡ finished n) × (1 ≤ n))
reasons_for_iff m (finished n) =
    let parts = any_reason_iff m.status m.injection_verified (ltb 0 n) n in
    (
      (λ h. let (s, v, w, le) = parts.0 h in (s, v, (n, refl, le))),
      (λ h.
          let (s, v, (k, e, le)) = h in
          let same : n ≡ k = cc in
          parts.1 (s, v, ground (arith, same, le), ground (arith, same, le))),
    )
reasons_for_iff m (raised e) =
    let parts = any_reason_iff m.status m.injection_verified false 0 in
    ((λ h. let (s, v, w, le) = parts.0 h in cc), (λ h. cc))

collect-health : (c : ClassId) (p : Phases) → (collect c p).health ≡ health_of p.beacons
unfolding collect
collect-health c p = after_sizes-health _ _ _ p.sizes

collect_iff :
    (c : ClassId) (p : Phases)
    → ((collect c p).status ≡ ok)
        × ((collect c p).injection_verified ≡ true)
        × ((n : ℕ) × (p.beacons ≡ finished n) × (1 ≤ n))
      ↔ WentThrough c p
unfolding collect up_to_cleanup IsVerified
collect_iff c p =
    let server = (scenario c).dhcp_server in
    let cleaned = up_to_cleanup p.steps p.close p.verification p.cleanup_errors in
    let m = record cleaned { health = health_of p.beacons } in
    let last = after_sizes_ok server m m.status p.sizes refl in
    let same = after_sizes-verified server m m.status p.sizes in
    let first = up_to_cleanup_iff p.steps p.close p.verification p.cleanup_errors in
    (
      (λ h.
          let (s, v, b) = h in
          let (s2, f0) = last.0 s in
          let f = (first_empty_iff c p.sizes).0 f0 in
          let (x, w, k, e) = first.0 (s2, sym same ∙ v) in (x, w, k, e, b, f)),
      (λ h.
          let (x, w, k, e, b, f) = h in
          let (s, v) = first.1 (x, w, k, e) in
          (last.1 (s, (first_empty_iff c p.sizes).1 f), same ∙ v, b)),
    )

-- Where the wall clock at the end is not before its reading at the start, the observed state has the
-- types that the validator asks for, and the verification makes at least one check, the metadata of a
-- run is accepted. The run is then not quarantined exactly where its steps and the closing of the
-- observation came to their end, each check of the injection passed, the cleanup had no errors, a beacon
-- was counted, and the capture and the logs are not empty; the log of the DHCP server may be empty in
-- the class that starts no server, and in no other.
pub run_bundle-WentThrough :
    (c : ClassId) (p : Phases)
    → p.started_at ≤ p.ended_at
    → p.observed_types ≡ true
    → ((checks : List Bool) → p.verification ≡ finished checks → is_empty_list checks ≡ false)
    → (out : BundleMeta) × (run_bundle c p ≡ accepted out)
      × ((out.quarantined ≡ false) ↔ WentThrough c p)
unfolding run_bundle
run_bundle-WentThrough c p le typed some_checks =
    let (out, e, q) =
      validate_meta-meta_of p (collect c p) p.beacons le typed (collect-IsSound c p some_checks)
        (collect-health c p) in
    let clean = reasons_for_iff (collect c p) p.beacons in
    let stages = collect_iff c p in
    (out, e, ((λ h. stages.0 (clean.0 (sym q ∙ h))), (λ h. q ∙ clean.1 (stages.1 h))))
