-- ===== src/Lab/Run/Bundle.antt =====
-- `run_bundle` of lab/run_lab.py over the outcomes of its phases: the steps of the plan, the closing of
-- the observation, the verification, the cleanup and the health of the capture. The two readings of
-- the wall clock are independent; of the observed state, only whether the validator accepts its types
-- is kept.
pub mod Accepted
pub mod Outputs
pub mod Proper
mod Examples
use airtrace.Prelude.{
  ℕ, zero, suc, Bool, true, false, not, Option, none, some, List, [], ◌∷◌, ◌++◌, ◌&&◌, ◌||◌, ltb,
  if◌then◌else◌,
}
use airtrace.Text.Base.{Text, codes}
use airtrace.Text.Order.{text_eq}
use airtrace.Triage.Schema.{ClassId}
use airtrace.Lab.Scenarios.{Scenario, scenario}
use airtrace.Lab.Dataset.{
  Status, ok, failed, CaptureHealth, BundleMeta, MetaResult, accepted, refused, validate_meta,
  all_passed,
}

-- An exception: its class and its text.
pub record Raised : Type 0 where
  pub class_name : Text
  pub text : Text

-- What a phase gives: a value, or the exception that it raised.
pub data Phase {ℓ} (A : Type ℓ) : Type ℓ where
  finished : A → Phase A
  raised : Raised → Phase A

-- `f"{type(error).__name__}: {error}"`
unfoldable pub described : Raised → Text
described e = e.class_name ++ (58 ∷ 32 ∷ e.text)

-- What `execute` gives back: nothing.
pub data Nothing : Type 0 where
  nothing : Nothing

-- The removed lines of hostapd and wpa_supplicant in a closed observation window.
pub record Window : Type 0 where
  pub removed_hostapd : ℕ
  pub removed_wpa_supplicant : ℕ

-- The bytes in each visible file.
pub record Sizes : Type 0 where
  pub capture_pcap : ℕ
  pub hostapd_log : ℕ
  pub wpa_supplicant_log : ℕ
  pub dhcp_server_log : ℕ
  pub dhcp_client_log : ℕ

-- The phases in their order. `steps` ends with the exception of a step, if one is raised;
-- `verification` are the checks with their `passed`; `sizes` are the visible files. An exception is one of the classes that the source catches.
pub record Phases : Type 0 where
  pub started_at : ℕ
  pub ended_at : ℕ
  pub scenario_started_at : Option ℕ
  pub steps : Phase Nothing
  pub close : Phase Window
  pub verification : Phase (List Bool)
  pub cleanup_errors : List Text
  pub beacons : Phase ℕ
  pub sizes : Sizes
  pub observed_types : Bool

-- The fields of `metadata` that the phases change.
pub record Metadata : Type 0 where
  pub status : Status
  pub error : Option Text
  pub window : Option Window
  pub injection_verified : Bool
  pub verification : List Bool
  pub health : CaptureHealth

-- `(metadata["error"] or "") + text`
unfoldable pub append_error : Option Text → Text → Option Text
append_error none text = some text
append_error (some before) text = some (before ++ text)

unfoldable pub after_steps : Phase Nothing → Metadata
after_steps (finished _) = record {
  status = ok;
  error = none;
  window = none;
  injection_verified = false;
  verification = [];
  health = record { healthy = some false; ap_beacons = some 0 };
}
after_steps (raised e) = record {
  status = failed;
  error = some (described e);
  window = none;
  injection_verified = false;
  verification = [];
  health = record { healthy = some false; ap_beacons = some 0 };
}

unfoldable pub after_close : Metadata → Phase Window → Metadata
after_close m (finished w) = record m { window = some w }
after_close m (raised e) = record m {
  status = failed;
  error = append_error m.error (codes "; observation close: " ++ described e);
}

-- `all(item["passed"] for item in checks), checks`
unfoldable pub checked : Metadata → Phase (List Bool) → Metadata
checked m (finished checks) = record m {
  injection_verified = all_passed checks;
  verification = checks;
}
checked m (raised e) = record m {
  injection_verified = false;
  verification = m.verification ++ false ∷ [];
}

-- `if metadata["status"] == "ok": ...`
unfoldable pub after_verification : Metadata → Status → Phase (List Bool) → Metadata
after_verification m ok outcome = checked m outcome
after_verification m failed outcome = m

-- `"; ".join(errors)`
separated_by : List Text → Text
separated_by [] = []
separated_by (e ∷ []) = e
separated_by (e ∷ f ∷ es) = e ++ (codes "; " ++ separated_by (f ∷ es))

unfoldable pub after_cleanup : Metadata → List Text → Metadata
unfolding separated_by
after_cleanup m [] = m
after_cleanup m (e ∷ es) = record m {
  status = failed;
  error = append_error m.error (codes "; cleanup: " ++ separated_by (e ∷ es));
}

-- `check_capture_health` of lab/verify.py: healthy exactly where a beacon was counted.
unfoldable pub health_of : Phase ℕ → CaptureHealth
health_of (finished beacons) = record { healthy = some (ltb 0 beacons); ap_beacons = some beacons }
health_of (raised e) = record { healthy = some false; ap_beacons = some 0 }

-- The visible files, in the order of the loop over them.
unfoldable pub visible_files : Sizes → List (Text × ℕ)
visible_files s =
    (codes "capture.pcap", s.capture_pcap)
    ∷ (codes "hostapd.log", s.hostapd_log)
    ∷ (codes "wpa_supplicant.log", s.wpa_supplicant_log)
    ∷ (codes "dhcp_server.log", s.dhcp_server_log)
    ∷ (codes "dhcp_client.log", s.dhcp_client_log)
    ∷ []

unfoldable pub unless_empty : Text → ℕ → Option Text → Option Text
unless_empty name zero later = some name
unless_empty name (suc size) later = later

-- The first required file that is empty; without a server, its log is not required.
unfoldable pub first_empty : Bool → List (Text × ℕ) → Option Text
first_empty server [] = none
first_empty server ((name, size) ∷ files) =
    let later = first_empty server files in
    if text_eq name (codes "dhcp_server.log") && not server
    then later
    else unless_empty name size later

unfoldable pub mark_empty : Metadata → Option Text → Metadata
mark_empty m none = m
mark_empty m (some name) = record m {
  status = failed;
  error = some (codes "required output is empty: " ++ name);
}

unfoldable pub after_sizes : Bool → Metadata → Status → Sizes → Metadata
after_sizes server m ok sizes = mark_empty m (first_empty server (visible_files sizes))
after_sizes server m failed sizes = m

-- All phases, in the order of the `try` and `finally` blocks.
unfoldable pub collect : ClassId → Phases → Metadata
collect c p =
    let stepped = after_steps p.steps in
    let closed = after_close stepped p.close in
    let verified = after_verification closed closed.status p.verification in
    let cleaned = after_cleanup verified p.cleanup_errors in
    let measured = record cleaned { health = health_of p.beacons } in
    after_sizes (scenario c).dhcp_server measured measured.status p.sizes

unfoldable pub wrapped : Option ℕ → Option (Option ℕ)
wrapped none = none
wrapped (some t) = some (some t)

unfoldable pub meta_of : Phases → Metadata → BundleMeta
unfolding wrapped
meta_of p m = record {
  started_at = some p.started_at;
  ended_at = some p.ended_at;
  scenario_started_at = wrapped p.scenario_started_at;
  observed_types = p.observed_types;
  status = m.status;
  error = m.error;
  injection_verified = m.injection_verified;
  verification = m.verification;
  capture_health = m.health;
  quarantined = true;
  quarantine_reasons = [];
}

-- The metadata as it is written.
unfoldable pub run_bundle : ClassId → Phases → MetaResult
run_bundle c p = validate_meta (meta_of p (collect c p))
