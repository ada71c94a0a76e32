-- ===== src/Lab/Verify/Checks.antt =====
-- The checks of `verify_injection` in lab/verify.py, in their order.
use airtrace.Prelude.{Bool, false, not, Option, List, [], ◌∷◌, ◌++◌, ◌&&◌, ◌||◌}
use airtrace.Text.Base.{Text, codes, contains}
use airtrace.Text.Order.{text_eq}
use airtrace.Triage.Schema.{
  ClassId, ok, wrong_passphrase, akm_mismatch, pmf_required_unsupported, mac_denied, ap_full,
  dhcp_no_server, ap_deauth, ssid_not_found,
}
use airtrace.Lab.Dataset.{all_passed}
use airtrace.Lab.Scenarios.{Parameters}
use airtrace.Lab.Scenarios.Configs.{station_ssid}
use airtrace.Lab.Run.Plan.{Argv, Namespaces}
use airtrace.Lab.Run.State.{Entry, Process}
use airtrace.Lab.Run.Executor.{Reply}
use airtrace.Lab.Verify.{
  Query, ap_status, ap_config, station_status, station_ssid_query, station_pmf, deny_acl,
  occupant_authorized, verification_commands, strip, strip_quotes, config_values, value_of,
  value_is, or_empty, query_passed, response, acknowledged,
}

-- What the checks read: the replies, the two configuration files, the logs of the processes that are
-- alive, the processes that were started, and the records.
pub record Evidence : Type 0 where
  pub reply : Query → Option Reply
  pub hostapd_conf : Text
  pub station_conf : Text
  pub active : List Text
  pub processes : List Process
  pub records : List Entry

unfoldable pub query_checks : (Query → Option Reply) → List (Query × Argv) → List Bool
query_checks reply [] = []
query_checks reply ((q, argv) ∷ rest) = query_passed (reply q) ∷ query_checks reply rest

unfoldable pub has_log : List Text → Text → Bool
has_log [] t = false
has_log (l ∷ ls) t = text_eq l t || has_log ls t

unfoldable pub launched : List Process → Text → Bool
launched [] t = false
launched (p ∷ ps) t = text_eq p.log t || launched ps t

unfoldable pub expected_pmf : ClassId → Text
expected_pmf pmf_required_unsupported = codes "0"
expected_pmf _ = codes "1"

unfoldable pub common_checks : ClassId → Parameters → Evidence → List Bool
common_checks c p e =
    let live_ap = config_values (response (e.reply ap_config)) in
    (has_log e.active (codes "hostapd.log") && has_log e.active (codes "wpa_supplicant.log"))
    ∷ contains (codes "state=ENABLED") (response (e.reply ap_status))
    ∷ value_is (value_of live_ap (codes "ssid")) p.ssid
    ∷ text_eq (strip_quotes (response (e.reply station_ssid_query))) (station_ssid c p)
    ∷ text_eq (response (e.reply station_pmf)) (expected_pmf c)
    ∷ contains (codes "wpa_state=") (response (e.reply station_status))
    ∷ []

-- The check of the class itself.
unfoldable pub class_checks : (Text → Text) → ClassId → Parameters → Evidence → List Bool
class_checks lower wrong_passphrase p e =
    (text_eq (strip_quotes (or_empty (value_of (config_values e.station_conf) (codes "psk"))))
        p.wrong_passphrase
      && (value_is (value_of (config_values e.hostapd_conf) (codes "wpa_passphrase")) p.passphrase
          && not (text_eq p.passphrase p.wrong_passphrase)))
    ∷ []
class_checks lower akm_mismatch p e =
    (text_eq
        (strip
          (or_empty (value_of (config_values (response (e.reply ap_config))) (codes "key_mgmt"))))
        (codes "SAE")
      && value_is (value_of (config_values e.station_conf) (codes "key_mgmt")) (codes "WPA-PSK"))
    ∷ []
class_checks lower pmf_required_unsupported p e =
    value_is (value_of (config_values e.hostapd_conf) (codes "ieee80211w")) (codes "2") ∷ []
class_checks lower mac_denied p e =
    contains (lower p.station_mac) (lower (response (e.reply deny_acl))) ∷ []
class_checks lower ap_full p e =
    (value_is (value_of (config_values e.hostapd_conf) (codes "max_num_sta")) (codes "1")
      && contains (codes "[AUTHORIZED]") (response (e.reply occupant_authorized)))
    ∷ []
class_checks lower dhcp_no_server p e = not (launched e.processes (codes "dhcp_server.log")) ∷ []
class_checks lower ap_deauth p e = acknowledged false e.records ∷ []
class_checks lower ssid_not_found p e =
    (not (text_eq p.ssid (station_ssid ssid_not_found p))
      && value_is (value_of (config_values (response (e.reply ap_config))) (codes "ssid")) p.ssid)
    ∷ []
class_checks lower ok p e = []

unfoldable pub server_checks : ClassId → Evidence → List Bool
server_checks dhcp_no_server e = []
server_checks _ e = has_log e.active (codes "dhcp_server.log") ∷ []

-- `verify_injection`: whether all checks passed, and the checks.
unfoldable pub verify_injection :
    (Text → Text) → ClassId → Namespaces → Text → Parameters → Evidence → Bool × List Bool
verify_injection lower c ns root p e =
    let checks =
      query_checks e.reply (verification_commands c ns root p)
      ++ (common_checks c p e ++ (class_checks lower c p e ++ server_checks c e)) in
    (all_passed checks, checks)
