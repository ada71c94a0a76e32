-- ===== src/Lab/Scenarios/Isolation.antt =====
-- A class differs from the control at the same draw by its causal keys alone.
use airtrace.Prelude.{
  ◌≡◌, refl, Bool, false, not, List, [], ◌∷◌, ◌==◌, ◌||◌, filter_by, if◌then◌else◌,
}
use airtrace.Text.Base.{Text}
use airtrace.Text.Order.{text_eq}
use airtrace.Triage.Schema.{
  ClassId, ok, wrong_passphrase, akm_mismatch, pmf_required_unsupported, mac_denied, ap_full,
  dhcp_no_server, ap_deauth, ssid_not_found,
}
use airtrace.Lab.Scenarios.{scenario, causal_keys, Parameters}
use airtrace.Lab.Scenarios.Configs.{
  ap_extra, ap_lines, station_ssid, station_secret, indented, client_lines, station_lines,
  occupant_lines, render_configs,
}

-- What stands in front of the first "=", without leading spaces.
abbrev until_equals : Text → Text
until_equals [] = []
until_equals (c ∷ cs) = let rest = until_equals cs in if c == 61 then [] else c ∷ rest

abbrev pub key_of : Text → Text
key_of [] = []
key_of (c ∷ cs) = let rest = key_of cs in if c == 32 then rest else until_equals (c ∷ cs)

abbrev pub has_key : List Text → Text → Bool
has_key [] line = false
has_key (k ∷ ks) line = text_eq k (key_of line) || has_key ks line

-- The lines that a class may not change.
abbrev pub uncausal : List Text → List Text → List Text
uncausal keys lines = filter_by (λ l. not (has_key keys l)) lines

-- For every class and every draw: outside of the causal keys, the lines of hostapd.conf, of
-- station.conf and of occupant.conf are those of the control, in their order, and the other files
-- are the same.
pub causal_keys_only :
    (c : ClassId) (p : Parameters) (directory : Text)
    → (uncausal (causal_keys c).ap (ap_lines c p directory)
        ≡ uncausal (causal_keys c).ap (ap_lines ok p directory))
      × (uncausal (causal_keys c).station (station_lines c p directory)
          ≡ uncausal (causal_keys c).station (station_lines ok p directory))
      × (uncausal (causal_keys c).station (occupant_lines c p directory)
          ≡ uncausal (causal_keys c).station (occupant_lines ok p directory))
      × ((render_configs c p directory).deny_txt ≡ (render_configs ok p directory).deny_txt)
      × ((render_configs c p directory).dnsmasq_conf ≡ (render_configs ok p directory).dnsmasq_conf)
      × ((render_configs c p directory).dhcp_script ≡ (render_configs ok p directory).dhcp_script)
unfolding causal_keys ap_lines station_lines occupant_lines client_lines station_ssid station_secret
    ap_extra scenario indented text_eq render_configs
causal_keys_only ok p directory = (refl, refl, refl, refl, refl, refl)
causal_keys_only wrong_passphrase p directory = (refl, refl, refl, refl, refl, refl)
causal_keys_only akm_mismatch p directory = (refl, refl, refl, refl, refl, refl)
causal_keys_only pmf_required_unsupported p directory = (refl, refl, refl, refl, refl, refl)
causal_keys_only mac_denied p directory = (refl, refl, refl, refl, refl, refl)
causal_keys_only ap_full p directory = (refl, refl, refl, refl, refl, refl)
causal_keys_only dhcp_no_server p directory = (refl, refl, refl, refl, refl, refl)
causal_keys_only ap_deauth p directory = (refl, refl, refl, refl, refl, refl)
causal_keys_only ssid_not_found p directory = (refl, refl, refl, refl, refl, refl)
