-- ===== src/Lab/Run/Bundle/Examples.antt =====
-- A run that went through, and one whose supplicant log is empty.
use airtrace.Prelude.{ℕ, arith, ◌≡◌, ◌↔◌, refl, Bool, true, false, none, some, List, [], ◌∷◌}
use airtrace.Text.Base.{codes}
use airtrace.Text.Order.{text_eq}
use airtrace.Triage.Schema.{ok}
use airtrace.Lab.Dataset.{BundleMeta, accepted, is_empty_list}
use airtrace.Lab.Scenarios.{scenario}
use airtrace.Lab.Run.Bundle.{
  finished, nothing, Phases, Sizes, first_empty, visible_files, unless_empty, run_bundle,
}
use airtrace.Lab.Run.Bundle.Proper.{WentThrough, run_bundle-WentThrough}

abbrev files : ℕ → Sizes
files size = record {
  capture_pcap = 24;
  hostapd_log = 5;
  wpa_supplicant_log = size;
  dhcp_server_log = 7;
  dhcp_client_log = 9;
}

abbrev phases : ℕ → Phases
phases size = record {
  started_at = 10;
  ended_at = 15;
  scenario_started_at = some 12;
  steps = finished nothing;
  close = finished (record { removed_hostapd = 1; removed_wpa_supplicant = 0 });
  verification = finished (true ∷ true ∷ []);
  cleanup_errors = [];
  beacons = finished 3;
  sizes = files size;
  observed_types = true;
}

checks_made :
    (checks : List Bool) → (phases 3).verification ≡ finished checks → is_empty_list checks ≡ false
unfolding is_empty_list
checks_made [] e = cc
checks_made (c ∷ cs) e = refl

run_bundle-WentThrough_example :
    (out : BundleMeta) × (run_bundle ok (phases 3) ≡ accepted out)
    × ((out.quarantined ≡ false) ↔ WentThrough ok (phases 3))
run_bundle-WentThrough_example =
    run_bundle-WentThrough ok (phases 3) (ground arith) refl checks_made

-- A silent log is found; a complete run misses nothing.
runs : Unit {0}
unfolding first_empty visible_files unless_empty scenario text_eq
runs = tt

silent_log :
    (first_empty true (visible_files (files 0)) ≡ some (codes "wpa_supplicant.log"))
    × (first_empty true (visible_files (files 3)) ≡ none)
unfolding runs
silent_log = (refl, refl)
