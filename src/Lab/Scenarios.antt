-- ===== src/Lab/Scenarios.antt =====
-- lab/scenarios.py: the scenario of each class, its causal keys, and the configuration files. The draw
-- of the parameters by Python's generator is not modelled; delays are in milliseconds.
pub mod Configs
pub mod Isolation
mod Examples
use airtrace.Prelude.{ℕ, Bool, true, false, List, [], ◌∷◌, ◌++◌, take}
use airtrace.Text.Base.{Text, codes}
use airtrace.Text.Number.{show}
use airtrace.Triage.Schema.{
  ClassId, ok, wrong_passphrase, akm_mismatch, pmf_required_unsupported, mac_denied, ap_full,
  dhcp_no_server, ap_deauth, ssid_not_found,
}

pub data Action : Type 0 where
  deny_station connect_occupant_first omit_dhcp_server deauthenticate_after_connection : Action

-- `Scenario`, with its options as lines.
pub record Scenario : Type 0 where
  pub ap_options : List Text
  pub station_options : List Text
  pub actions : List Action
  pub dhcp_server : Bool

abbrev pub default_scenario : Scenario
default_scenario = record {
  ap_options = codes "wpa_key_mgmt=WPA-PSK" ∷ codes "ieee80211w=0" ∷ [];
  station_options = codes "key_mgmt=WPA-PSK" ∷ codes "    ieee80211w=1" ∷ [];
  actions = [];
  dhcp_server = true;
}

-- `SCENARIOS[class_id]`
unfoldable pub scenario : ClassId → Scenario
scenario akm_mismatch = record default_scenario {
  ap_options = codes "wpa_key_mgmt=SAE" ∷ codes "ieee80211w=2" ∷ codes "sae_require_mfp=1" ∷ [];
}
scenario pmf_required_unsupported = record default_scenario {
  ap_options = codes "wpa_key_mgmt=WPA-PSK" ∷ codes "ieee80211w=2" ∷ [];
  station_options = codes "key_mgmt=WPA-PSK" ∷ codes "    ieee80211w=0" ∷ [];
}
scenario mac_denied = record default_scenario { actions = deny_station ∷ [] }
scenario ap_full = record default_scenario { actions = connect_occupant_first ∷ [] }
scenario dhcp_no_server = record default_scenario { dhcp_server = false }
scenario ap_deauth = record default_scenario { actions = deauthenticate_after_connection ∷ [] }
scenario ok = default_scenario
scenario wrong_passphrase = default_scenario
scenario ssid_not_found = default_scenario

-- `CAUSAL_KEYS[class_id]`
pub record CausalKeys : Type 0 where
  pub ap : List Text
  pub station : List Text
  pub actions : List Action

abbrev pub no_keys : CausalKeys
no_keys = record { ap = []; station = []; actions = [] }

unfoldable pub causal_keys : ClassId → CausalKeys
causal_keys ok = no_keys
causal_keys wrong_passphrase = record no_keys { station = codes "psk" ∷ [] }
causal_keys akm_mismatch = record no_keys {
  ap = codes "wpa_key_mgmt" ∷ codes "ieee80211w" ∷ codes "sae_require_mfp" ∷ [];
}
causal_keys pmf_required_unsupported = record no_keys {
  ap = codes "ieee80211w" ∷ [];
  station = codes "ieee80211w" ∷ [];
}
causal_keys mac_denied = record {
  ap = codes "macaddr_acl" ∷ codes "deny_mac_file" ∷ [];
  station = [];
  actions = deny_station ∷ [];
}
causal_keys ap_full = record {
  ap = codes "max_num_sta" ∷ [];
  station = [];
  actions = connect_occupant_first ∷ [];
}
causal_keys dhcp_no_server = record no_keys { actions = omit_dhcp_server ∷ [] }
causal_keys ap_deauth = record no_keys { actions = deauthenticate_after_connection ∷ [] }
causal_keys ssid_not_found = record no_keys { station = codes "ssid" ∷ [] }

pub record Parameters : Type 0 where
  pub ssid : Text
  pub absent_ssid : Text
  pub passphrase : Text
  pub wrong_passphrase : Text
  pub channel : ℕ
  pub ap_mac : Text
  pub station_mac : Text
  pub occupant_mac : Text
  pub ap_delay_ms : ℕ
  pub station_delay_ms : ℕ

unfoldable pub class_name : ClassId → Text
class_name ok = codes "ok"
class_name wrong_passphrase = codes "wrong_passphrase"
class_name akm_mismatch = codes "akm_mismatch"
class_name pmf_required_unsupported = codes "pmf_required_unsupported"
class_name mac_denied = codes "mac_denied"
class_name ap_full = codes "ap_full"
class_name dhcp_no_server = codes "dhcp_no_server"
class_name ap_deauth = codes "ap_deauth"
class_name ssid_not_found = codes "ssid_not_found"

-- `bundle_id`, with the digest in hexadecimal.
unfoldable pub bundle_id : (Text → Text) → ClassId → ℕ → Text
bundle_id digest label seed =
    take 12 (digest (codes "airtrace-lab:" ++ (class_name label ++ 58 ∷ show seed)))
