-- ===== src/Lab/Run/Bundle/Outputs.antt =====
-- What the last stages of run_bundle in lab/run_lab.py ask of the checks and of the visible files.
use airtrace.Prelude.{
  ℕ, zero, suc, ◌≤◌, ◌≡◌, ◌↔◌, refl, arith, Bool, true, false, Option, none, List, [], ◌∷◌, All,
}
use airtrace.Text.Base.{Text}
use airtrace.Text.Order.{text_eq}
use airtrace.Triage.Schema.{
  ClassId, ok, wrong_passphrase, akm_mismatch, pmf_required_unsupported, mac_denied, ap_full,
  dhcp_no_server, ap_deauth, ssid_not_found,
}
use airtrace.Lab.Scenarios.{scenario}
use airtrace.Lab.Dataset.{all_passed}
use airtrace.Lab.Run.Bundle.{Sizes, visible_files, unless_empty, first_empty}

-- Each check passed.
abbrev pub AllPassed : List Bool → Type 0
AllPassed checks = All (λ (b : Bool). b ≡ true) checks

pub all_passed_iff : (checks : List Bool) → (all_passed checks ≡ true) ↔ AllPassed checks
unfolding all_passed
all_passed_iff [] = (λ h. tt, λ h. refl)
all_passed_iff (true ∷ checks) =
    let rest = all_passed_iff checks in ((λ h. (refl, rest.0 h)), (λ h. rest.1 h.1))
all_passed_iff (false ∷ checks) = (λ h. cc, λ h. cc)

-- The log of the DHCP server is written, except in the class that starts none.
abbrev pub HasServerLog : ClassId → Sizes → Type 0
HasServerLog dhcp_no_server s = Unit
HasServerLog _ s = 1 ≤ s.dhcp_server_log

abbrev pub HasOutputs : ClassId → Sizes → Type 0
HasOutputs c s =
    (1 ≤ s.capture_pcap)
    × (1 ≤ s.hostapd_log)
    × (1 ≤ s.wpa_supplicant_log)
    × (1 ≤ s.dhcp_client_log)
    × HasServerLog c s

unless_empty_iff :
    (name : Text) (size : ℕ) (later : Option Text)
    → (unless_empty name size later ≡ none) ↔ (1 ≤ size) × (later ≡ none)
unfolding unless_empty
unless_empty_iff name zero later = (λ h. cc, λ h. ground (arith, h.0))
unless_empty_iff name (suc size) later = (λ h. (omega arith, h), λ h. h.1)

with_server_iff :
    (s : Sizes)
    → (first_empty true (visible_files s) ≡ none)
      ↔ (1 ≤ s.capture_pcap)
        × (1 ≤ s.hostapd_log)
        × (1 ≤ s.wpa_supplicant_log)
        × (1 ≤ s.dhcp_client_log)
        × (1 ≤ s.dhcp_server_log)
unfolding first_empty visible_files text_eq
with_server_iff s = (
  (λ h.
      let (a, h1) = (unless_empty_iff _ s.capture_pcap _).0 h in
      let (b, h2) = (unless_empty_iff _ s.hostapd_log _).0 h1 in
      let (c, h3) = (unless_empty_iff _ s.wpa_supplicant_log _).0 h2 in
      let (d, h4) = (unless_empty_iff _ s.dhcp_server_log _).0 h3 in
      let (e, h5) = (unless_empty_iff _ s.dhcp_client_log _).0 h4 in (a, b, c, e, d)),
  (λ h.
      let (a, b, c, e, d) = h in
      (unless_empty_iff _ s.capture_pcap _).1 (
        a,
        (unless_empty_iff _ s.hostapd_log _).1 (
          b,
          (unless_empty_iff _ s.wpa_supplicant_log _).1 (
            c,
            (unless_empty_iff _ s.dhcp_server_log _).1
                (d, (unless_empty_iff _ s.dhcp_client_log none).1 (e, refl)),
          ),
        ),
      )),
)

without_server_iff :
    (s : Sizes)
    → (first_empty false (visible_files s) ≡ none)
      ↔ (1 ≤ s.capture_pcap)
        × (1 ≤ s.hostapd_log)
        × (1 ≤ s.wpa_supplicant_log)
        × (1 ≤ s.dhcp_client_log)
        × Unit {0}
unfolding first_empty visible_files text_eq
without_server_iff s = (
  (λ h.
      let (a, h1) = (unless_empty_iff _ s.capture_pcap _).0 h in
      let (b, h2) = (unless_empty_iff _ s.hostapd_log _).0 h1 in
      let (c, h3) = (unless_empty_iff _ s.wpa_supplicant_log _).0 h2 in
      let (e, h5) = (unless_empty_iff _ s.dhcp_client_log _).0 h3 in (a, b, c, e, tt)),
  (λ h.
      let (a, b, c, e, d) = h in
      (unless_empty_iff _ s.capture_pcap _).1 (
        a,
        (unless_empty_iff _ s.hostapd_log _).1 (
          b,
          (unless_empty_iff _ s.wpa_supplicant_log _).1
              (c, (unless_empty_iff _ s.dhcp_client_log none).1 (e, refl)),
        ),
      )),
)

pub first_empty_iff :
    (c : ClassId) (s : Sizes)
    → (first_empty (scenario c).dhcp_server (visible_files s) ≡ none) ↔ HasOutputs c s
unfolding scenario
first_empty_iff dhcp_no_server s = without_server_iff s
first_empty_iff ok s = with_server_iff s
first_empty_iff wrong_passphrase s = with_server_iff s
first_empty_iff akm_mismatch s = with_server_iff s
first_empty_iff pmf_required_unsupported s = with_server_iff s
first_empty_iff mac_denied s = with_server_iff s
first_empty_iff ap_full s = with_server_iff s
first_empty_iff ap_deauth s = with_server_iff s
first_empty_iff ssid_not_found s = with_server_iff s
