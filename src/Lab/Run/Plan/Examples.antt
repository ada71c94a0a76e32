-- ===== src/Lab/Run/Plan/Examples.antt =====
-- Two classes at one draw, and the theorems at them.
use airtrace.Prelude.{◌≡◌, refl, []}
use airtrace.Text.Base.{Text, codes}
use airtrace.Triage.Schema.{ok, akm_mismatch}
use airtrace.Lab.Scenarios.{causal_keys, Parameters, bundle_id}
use airtrace.Lab.Run.Plan.{Phys, namespaces_of, cleanup_plan, plan_steps, command_plan}
use airtrace.Lab.Run.Plan.Control.{plan_of_control}

abbrev drawn : Parameters
drawn = record {
  ssid = codes "one";
  absent_ssid = codes "two";
  passphrase = codes "secret";
  wrong_passphrase = codes "Secret";
  channel = 6;
  ap_mac = codes "02:00:00:00:00:01";
  station_mac = codes "02:00:00:00:00:02";
  occupant_mac = codes "02:00:00:00:00:03";
  ap_delay_ms = 200;
  station_delay_ms = 300;
}

abbrev radios : Phys
radios = record { first = codes "phy0"; second = codes "phy1"; third = codes "phy2" }

no_action : (causal_keys akm_mismatch).actions ≡ []
unfolding causal_keys
no_action = refl

abbrev plain_digest : Text → Text
plain_digest t = t

plan_of_control_example :
    let ns = namespaces_of (bundle_id plain_digest akm_mismatch 7) in
    command_plan akm_mismatch drawn plain_digest 7 radios (codes "d")
    ≡ (plan_steps drawn ns radios (codes "d") ok, cleanup_plan ns)
plan_of_control_example =
    plan_of_control akm_mismatch drawn plain_digest 7 radios (codes "d") no_action
