-- ===== src/Lab/Run/Plan/Control.antt =====
-- What the plans of the classes have in common, and in which order their processes start.
use airtrace.Prelude.{ℕ, ◌≡◌, refl, Bool, true, false, List, [], ◌∷◌, ◌++◌, if◌then◌else◌}
use airtrace.Text.Base.{Text, codes}
use airtrace.Text.Order.{text_eq}
use airtrace.Triage.Schema.{
  ClassId, ok, wrong_passphrase, akm_mismatch, pmf_required_unsupported, mac_denied, ap_full,
  dhcp_no_server, ap_deauth, ssid_not_found,
}
use airtrace.Lab.Scenarios.{scenario, causal_keys, Parameters, bundle_id}
use airtrace.Lab.Run.Plan.{
  Step, run, start, Phys, namespaces_of, radio_steps, dhcp_steps, occupant_steps, deauth_steps,
  setup_steps, ap_steps, station_steps, plan_steps, cleanup_plan, command_plan, has_prefix, fourth,
  netns_add,
}

-- The logs of the processes that the steps start, in their order.
abbrev pub started_logs : List Step → List Text
started_logs [] = []
started_logs (start argv log required ∷ steps) = log ∷ started_logs steps
started_logs (_ ∷ steps) = started_logs steps

-- The namespaces that the steps add.
abbrev pub added : List Step → List Text
added [] = []
added (run argv ∷ steps) =
    let rest = added steps in if has_prefix netns_add argv then fourth argv ∷ rest else rest
added (_ ∷ steps) = added steps

-- A class whose causal keys hold no action runs the steps and the cleanup of the control, for the same
-- draw and the same radios, in its own directory and in the namespaces that its own bundle id names.
pub plan_of_control :
    (c : ClassId) (p : Parameters) (digest : Text → Text) (seed : ℕ) (phys : Phys) (root : Text)
    → (causal_keys c).actions ≡ []
    → let ns = namespaces_of (bundle_id digest c seed) in
      command_plan c p digest seed phys root ≡ (plan_steps p ns phys root ok, cleanup_plan ns)
unfolding causal_keys command_plan plan_steps dhcp_steps occupant_steps deauth_steps scenario
plan_of_control ok p digest seed phys root h = refl
plan_of_control wrong_passphrase p digest seed phys root h = refl
plan_of_control akm_mismatch p digest seed phys root h = refl
plan_of_control pmf_required_unsupported p digest seed phys root h = refl
plan_of_control ssid_not_found p digest seed phys root h = refl
plan_of_control _ p digest seed phys root h = cc

dhcp_log : Bool → List Text
dhcp_log true = codes "dhcp_server.log" ∷ []
dhcp_log false = []

occupant_log : ClassId → List Text
occupant_log ap_full = codes "occupant.log" ∷ []
occupant_log _ = []

-- The order in which a class starts its processes.
unfoldable pub starting_order : ClassId → List Text
unfolding dhcp_log occupant_log
starting_order c =
    codes "tcpdump.log"
    ∷ (dhcp_log (scenario c).dhcp_server
        ++ codes "hostapd.log"
          ∷ (occupant_log c ++ codes "wpa_supplicant.log" ∷ codes "dhcp_client.log" ∷ []))

-- Every class starts the capture first, then the DHCP server where it has one, the access point, the
-- occupant where it has one, and the station with its DHCP client; and it adds the three namespaces,
-- which its cleanup deletes in the other order.
pub plan_order :
    (c : ClassId) (p : Parameters) (digest : Text → Text) (seed : ℕ) (phys : Phys) (root : Text)
    → let plan = command_plan c p digest seed phys root in
      let ns = namespaces_of (bundle_id digest c seed) in
      (started_logs plan.0 ≡ starting_order c)
      × (added plan.0 ≡ ns.ap ∷ ns.station ∷ ns.occupant ∷ [])
      × (plan.1 ≡ cleanup_plan ns)
unfolding command_plan plan_steps setup_steps ap_steps station_steps radio_steps dhcp_steps
    occupant_steps deauth_steps scenario starting_order has_prefix fourth text_eq
plan_order ok p digest seed phys root = (refl, refl, refl)
plan_order wrong_passphrase p digest seed phys root = (refl, refl, refl)
plan_order akm_mismatch p digest seed phys root = (refl, refl, refl)
plan_order pmf_required_unsupported p digest seed phys root = (refl, refl, refl)
plan_order mac_denied p digest seed phys root = (refl, refl, refl)
plan_order ap_full p digest seed phys root = (refl, refl, refl)
plan_order dhcp_no_server p digest seed phys root = (refl, refl, refl)
plan_order ap_deauth p digest seed phys root = (refl, refl, refl)
plan_order ssid_not_found p digest seed phys root = (refl, refl, refl)
