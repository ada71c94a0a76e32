-- ===== src/Lab/Scenarios/Examples.antt =====
-- A draw, and the theorem at the class whose access point refuses the station.
use airtrace.Prelude.{◌≡◌}
use airtrace.Text.Base.{codes}
use airtrace.Triage.Schema.{ok, mac_denied}
use airtrace.Lab.Scenarios.{causal_keys, Parameters}
use airtrace.Lab.Scenarios.Configs.{ap_lines, station_lines, occupant_lines, render_configs}
use airtrace.Lab.Scenarios.Isolation.{uncausal, causal_keys_only}

abbrev drawn : Parameters
drawn = record {
  ssid = codes "airtrace-one";
  absent_ssid = codes "airtrace-two";
  passphrase = codes "secret";
  wrong_passphrase = codes "Secret";
  channel = 6;
  ap_mac = codes "02:00:00:00:00:01";
  station_mac = codes "02:00:00:00:00:02";
  occupant_mac = codes "02:00:00:00:00:03";
  ap_delay_ms = 200;
  station_delay_ms = 300;
}

causal_keys_only_example :
    (uncausal (causal_keys mac_denied).ap (ap_lines mac_denied drawn (codes "d"))
      ≡ uncausal (causal_keys mac_denied).ap (ap_lines ok drawn (codes "d")))
    × (uncausal (causal_keys mac_denied).station (station_lines mac_denied drawn (codes "d"))
        ≡ uncausal (causal_keys mac_denied).station (station_lines ok drawn (codes "d")))
    × (uncausal (causal_keys mac_denied).station (occupant_lines mac_denied drawn (codes "d"))
        ≡ uncausal (causal_keys mac_denied).station (occupant_lines ok drawn (codes "d")))
    × ((render_configs mac_denied drawn (codes "d")).deny_txt
        ≡ (render_configs ok drawn (codes "d")).deny_txt)
    × ((render_configs mac_denied drawn (codes "d")).dnsmasq_conf
        ≡ (render_configs ok drawn (codes "d")).dnsmasq_conf)
    × ((render_configs mac_denied drawn (codes "d")).dhcp_script
        ≡ (render_configs ok drawn (codes "d")).dhcp_script)
causal_keys_only_example = causal_keys_only mac_denied drawn (codes "d")
