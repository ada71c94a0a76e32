-- ===== src/Lab/Verify/Examples.antt =====
-- A deauthentication behind a completed connection, and the run that imposed it.
use airtrace.Prelude.{◌≡◌, ◌↔◌, refl, arith, Bool, true, false, Option, none, some, List, [], ◌∷◌}
use Prim.Native.String.{String}
use airtrace.Text.Base.{
  Text, codes, contains, starts_with, is_space, is_break, ends_line, splitlines_keep,
}
use airtrace.Text.Order.{text_eq}
use airtrace.Triage.Schema.{ap_deauth}
use airtrace.Lab.Dataset.{
  Status, BundleMeta, accepted, all_passed, validate_meta, both_times, with_times, guard,
  with_health, is_naive, is_failed, lacks_error, is_empty_list, reasons_of, reason_if, any_reason,
}
use airtrace.Lab.Scenarios.{Parameters, scenario}
use airtrace.Lab.Scenarios.Configs.{station_ssid}
use airtrace.Lab.Run.Plan.{namespaces_of}
use airtrace.Lab.Run.State.{Entry, command, completed}
use airtrace.Lab.Run.Executor.{Reply}
use airtrace.Lab.Run.Bundle.{
  finished, nothing, Phases, run_bundle, meta_of, wrapped, collect, after_steps, after_close,
  after_verification, checked, after_cleanup, after_sizes, mark_empty, first_empty, visible_files,
  unless_empty, health_of,
}
use airtrace.Lab.Run.Bundle.Proper.{WentThrough}
use airtrace.Lab.Verify.{
  Query, ap_status, ap_config, station_status, station_ssid_query, station_pmf, strip_quotes,
  lstrip, rstrip, all_of, strip, split_equals, acknowledged, is_completion, is_acknowledgement,
  has_word, verification_commands, class_commands, query_passed, response, fails_in, config_values,
  config_of, add_value, value_of, value_is, or_empty,
}
use airtrace.Lab.Verify.Checks.{
  Evidence, verify_injection, query_checks, common_checks, class_checks, server_checks,
  expected_pmf, has_log, launched,
}
use airtrace.Lab.Verify.Acknowledged.{ComesAfter, acknowledged-ComesAfter}
use airtrace.Lab.Verify.Imposed.{Imposed}
use airtrace.Lab.Verify.Made.{run_bundle-Imposed}

abbrev parameters : Parameters
parameters = record {
  ssid = codes "one";
  absent_ssid = codes "two";
  passphrase = codes "secret";
  wrong_passphrase = codes "Secret";
  channel = 6;
  ap_mac = codes "02:00:00:00:00:01";
  station_mac = codes "02:00:00:00:00:02";
  occupant_mac = codes "02:00:00:00:00:03";
  ap_delay_ms = 200;
  station_delay_ms = 300;
}

abbrev status_entry : Entry
status_entry = command (codes "status" ∷ []) 3000 (completed true (codes "wpa_state=COMPLETED"))

abbrev deauth_entry : Entry
deauth_entry = command (codes "deauthenticate" ∷ []) 10000 (completed true (codes "OK"))

abbrev replied : String → Option Reply
replied t = some (record { succeeded = true; stdout = codes t })

abbrev replies : Query → Option Reply
replies ap_status = replied "state=ENABLED"
replies ap_config = replied "ssid=one"
replies station_status = replied "wpa_state=COMPLETED"
replies station_ssid_query = replied "\"one\""
replies station_pmf = replied "1"
replies _ = none

abbrev evidence : Evidence
evidence = record {
  reply = replies;
  hostapd_conf = [];
  station_conf = [];
  active = codes "hostapd.log" ∷ codes "wpa_supplicant.log" ∷ codes "dhcp_server.log" ∷ [];
  processes = [];
  records = status_entry ∷ deauth_entry ∷ [];
}

abbrev lower : Text → Text
lower t = t

abbrev checks : List Bool
checks =
    (verify_injection lower ap_deauth (namespaces_of (codes "ab")) (codes "d") parameters
      evidence).1

abbrev phases : Phases
phases = record {
  started_at = 10;
  ended_at = 15;
  scenario_started_at = some 12;
  steps = finished nothing;
  close = finished (record { removed_hostapd = 0; removed_wpa_supplicant = 0 });
  verification = finished checks;
  cleanup_errors = [];
  beacons = finished 3;
  sizes = record {
    capture_pcap = 24;
    hostapd_log = 5;
    wpa_supplicant_log = 6;
    dhcp_server_log = 7;
    dhcp_client_log = 8;
  };
  observed_types = true;
}

abbrev written : BundleMeta
written = record {
  started_at = some 10;
  ended_at = some 15;
  scenario_started_at = some (some 12);
  observed_types = true;
  status = Status.ok;
  error = none;
  injection_verified = true;
  verification = checks;
  capture_health = record { healthy = some true; ap_beacons = some 3 };
  quarantined = false;
  quarantine_reasons = [];
}

acknowledged-ComesAfter_example :
    (acknowledged false (status_entry ∷ deauth_entry ∷ []) ≡ true)
    ↔ ComesAfter false (status_entry ∷ deauth_entry ∷ [])
acknowledged-ComesAfter_example = acknowledged-ComesAfter (status_entry ∷ deauth_entry ∷ [])

-- The order counts.
runs : Unit {0}
unfolding acknowledged is_completion is_acknowledgement has_word contains starts_with text_eq
    strip_quotes lstrip rstrip all_of split_equals strip is_space verify_injection
    verification_commands class_commands query_checks query_passed response fails_in common_checks
    class_checks server_checks expected_pmf has_log launched config_values config_of add_value
    value_of value_is or_empty splitlines_keep is_break ends_line all_passed station_ssid run_bundle
    meta_of wrapped collect after_steps after_close after_verification checked after_cleanup
    after_sizes mark_empty first_empty visible_files unless_empty health_of scenario validate_meta
    both_times with_times guard with_health is_naive is_failed lacks_error is_empty_list reasons_of
    reason_if any_reason
runs = tt

orders :
    (acknowledged false (status_entry ∷ deauth_entry ∷ []) ≡ true)
    × (acknowledged false (deauth_entry ∷ status_entry ∷ []) ≡ false)
    × (strip_quotes (codes "\"one\"") ≡ codes "one")
    × (split_equals (codes "a=b=c") ≡ some (codes "a", codes "b=c"))
unfolding runs
orders = (refl, refl, refl, refl)

all_made : all_passed checks ≡ true
unfolding runs
all_made = refl

is_written : run_bundle ap_deauth phases ≡ accepted written
unfolding runs
is_written = refl

run_bundle-Imposed_example :
    WentThrough ap_deauth phases × Imposed lower ap_deauth parameters evidence
run_bundle-Imposed_example =
    run_bundle-Imposed lower ap_deauth (namespaces_of (codes "ab")) (codes "d") parameters evidence
      phases written refl (ground arith) refl is_written refl
