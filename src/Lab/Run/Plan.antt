-- ===== src/Lab/Run/Plan.antt =====
-- `command_plan` of lab/run_lab.py: the one plan of a run and of its dry run. A delay is in milliseconds, a timeout in seconds.
pub mod Control
mod Examples
use airtrace.Prelude.{ℕ, Bool, true, false, List, [], ◌∷◌, ◌++◌, ◌&&◌, if◌then◌else◌}
use airtrace.Text.Base.{Text, codes}
use airtrace.Text.Order.{text_eq}
use airtrace.Triage.Schema.{
  ClassId, ok, wrong_passphrase, akm_mismatch, pmf_required_unsupported, mac_denied, ap_full,
  dhcp_no_server, ap_deauth, ssid_not_found,
}
use airtrace.Lab.Scenarios.{Scenario, scenario, Parameters, bundle_id}

abbrev pub Argv : Type 0
Argv = List Text

-- The kinds of a step, with the fields that each has.
pub data Step : Type 0 where
  run : Argv → Step
  start : Argv → Text → Bool → Step
  wait : Argv → Text → Step
  require : Argv → Text → Step
  delay : ℕ → Step

-- `phys`
pub record Phys : Type 0 where
  pub first : Text
  pub second : Text
  pub third : Text

pub record Namespaces : Type 0 where
  pub ap : Text
  pub station : Text
  pub occupant : Text

unfoldable pub namespaces_of : Text → Namespaces
namespaces_of token = record {
  ap = codes "at-" ++ (token ++ codes "-ap");
  station = codes "at-" ++ (token ++ codes "-sta");
  occupant = codes "at-" ++ (token ++ codes "-occ");
}

-- `ns(name, argv)` and the wrapper of `start`.
unfoldable pub in_namespace : Text → Argv → Argv
in_namespace name argv = codes "ip" ∷ codes "netns" ∷ codes "exec" ∷ name ∷ argv

unfoldable pub limited : Argv → Argv
limited argv =
    codes "timeout" ∷ codes "--signal=TERM" ∷ codes "--kill-after=3s" ∷ codes "140s" ∷ argv

-- One radio: its namespace, its phy and its interface.
unfoldable pub radio_steps : Text → Text → Text → Text → List Step
radio_steps namespace phy interface address =
    run (codes "ip" ∷ codes "netns" ∷ codes "add" ∷ namespace ∷ [])
    ∷ run (
        codes "iw"
        ∷ codes "phy"
        ∷ phy
        ∷ codes "set"
        ∷ codes "netns"
        ∷ codes "name"
        ∷ namespace
        ∷ [])
    ∷ run (
        codes "ip"
        ∷ codes "-n"
        ∷ namespace
        ∷ codes "link"
        ∷ codes "set"
        ∷ codes "lo"
        ∷ codes "up"
        ∷ [])
    ∷ run (
        codes "ip"
        ∷ codes "-n"
        ∷ namespace
        ∷ codes "link"
        ∷ codes "set"
        ∷ interface
        ∷ codes "address"
        ∷ address
        ∷ [])
    ∷ run (
        codes "ip"
        ∷ codes "-n"
        ∷ namespace
        ∷ codes "link"
        ∷ codes "set"
        ∷ interface
        ∷ codes "up"
        ∷ [])
    ∷ []

-- A query of a control socket.
unfoldable pub control_query : Text → Text → Text → Text → Argv → Argv
control_query namespace tool socket interface command =
    in_namespace namespace (tool ∷ codes "-p" ∷ socket ∷ codes "-i" ∷ interface ∷ command)

unfoldable pub supplicant : Text → Text → Text → Argv
supplicant namespace interface conf = in_namespace namespace (
    codes "wpa_supplicant"
    ∷ codes "-d"
    ∷ codes "-t"
    ∷ codes "-i"
    ∷ interface
    ∷ codes "-c"
    ∷ conf
    ∷ [])

-- `if SCENARIOS[class_id].dhcp_server: ...`
unfoldable pub dhcp_steps : Bool → Namespaces → Text → List Step
dhcp_steps true ns root =
    start
      (limited (
        in_namespace ns.ap (
          codes "dnsmasq"
          ∷ codes "--keep-in-foreground"
          ∷ (codes "--conf-file=" ++ (root ++ codes "/dnsmasq.conf"))
          ∷ [])))
      (codes "dhcp_server.log") true
    ∷ []
dhcp_steps false ns root = []

-- `if class_id == "ap_full": ...`
unfoldable pub occupant_steps : ClassId → Namespaces → Parameters → Text → List Step
occupant_steps ap_full ns p root =
    start (limited (supplicant ns.occupant (codes "wlan2") (root ++ codes "/occupant.conf")))
      (codes "occupant.log") true
    ∷ wait
        (control_query ns.occupant (codes "wpa_cli") (root ++ codes "/occupant-control")
          (codes "wlan2") (codes "status" ∷ []))
        (codes "wpa_state=COMPLETED")
    ∷ wait
        (control_query ns.ap (codes "hostapd_cli") (root ++ codes "/ap-control") (codes "wlan0")
          (codes "sta" ∷ p.occupant_mac ∷ []))
        (codes "[AUTHORIZED]")
    ∷ []
occupant_steps _ ns p root = []

-- `if class_id == "ap_deauth": ...`
unfoldable pub deauth_steps : ClassId → Namespaces → Parameters → Text → List Step
deauth_steps ap_deauth ns p root =
    wait
      (control_query ns.station (codes "wpa_cli") (root ++ codes "/sta-control") (codes "wlan1")
        (codes "status" ∷ []))
      (codes "wpa_state=COMPLETED")
    ∷ require
        (control_query ns.ap (codes "hostapd_cli") (root ++ codes "/ap-control") (codes "wlan0")
          (codes "deauthenticate" ∷ p.station_mac ∷ codes "reason=3" ∷ []))
        (codes "OK")
    ∷ []
deauth_steps _ ns p root = []

udhcpc : Text → Text → Argv
udhcpc namespace root = in_namespace namespace (
    codes "busybox"
    ∷ codes "udhcpc"
    ∷ codes "-f"
    ∷ codes "-n"
    ∷ codes "-q"
    ∷ codes "-t"
    ∷ codes "15"
    ∷ codes "-T"
    ∷ codes "2"
    ∷ codes "-i"
    ∷ codes "wlan1"
    ∷ codes "-s"
    ∷ (root ++ codes "/dhcp-script.sh")
    ∷ codes "-p"
    ∷ (root ++ codes "/udhcpc.pid")
    ∷ [])

abbrev pub observe_ms : ℕ
observe_ms = 30000

module _ (p : Parameters) (ns : Namespaces) (phys : Phys) (root : Text) where
  -- The radios and the capture.
  unfoldable pub setup_steps : List Step
  setup_steps =
      run (codes "modprobe" ∷ codes "mac80211_hwsim" ∷ codes "radios=3" ∷ [])
      ∷ run (codes "ip" ∷ codes "link" ∷ codes "set" ∷ codes "hwsim0" ∷ codes "up" ∷ [])
      ∷ (radio_steps ns.ap phys.first (codes "wlan0") p.ap_mac
          ++ (radio_steps ns.station phys.second (codes "wlan1") p.station_mac
              ++ (radio_steps ns.occupant phys.third (codes "wlan2") p.occupant_mac
                  ++ run (
                      codes "ip"
                      ∷ codes "-n"
                      ∷ ns.ap
                      ∷ codes "address"
                      ∷ codes "add"
                      ∷ codes "192.0.2.1/24"
                      ∷ codes "dev"
                      ∷ codes "wlan0"
                      ∷ [])
                    ∷ start
                        (limited (
                          codes "tcpdump"
                          ∷ codes "-U"
                          ∷ codes "-n"
                          ∷ codes "-Z"
                          ∷ codes "root"
                          ∷ codes "-s"
                          ∷ codes "0"
                          ∷ codes "-i"
                          ∷ codes "hwsim0"
                          ∷ codes "-w"
                          ∷ (root ++ codes "/raw/capture.pcap")
                          ∷ []))
                        (codes "tcpdump.log") true
                    ∷ delay 500
                    ∷ [])))

  -- The access point.
  unfoldable pub ap_steps : List Step
  ap_steps =
      delay p.ap_delay_ms
      ∷ start
          (limited (
            in_namespace ns.ap
              (codes "hostapd" ∷ codes "-d" ∷ codes "-t" ∷ (root ++ codes "/hostapd.conf") ∷ [])))
          (codes "hostapd.log") true
      ∷ wait
          (control_query ns.ap (codes "hostapd_cli") (root ++ codes "/ap-control") (codes "wlan0")
            (codes "ping" ∷ []))
          (codes "PONG")
      ∷ []

  -- The station.
  unfoldable pub station_steps : List Step
  unfolding udhcpc
  station_steps =
      delay p.station_delay_ms
      ∷ start (limited (supplicant ns.station (codes "wlan1") (root ++ codes "/station.conf")))
          (codes "wpa_supplicant.log") true
      ∷ start (limited (udhcpc ns.station root)) (codes "dhcp_client.log") false
      ∷ []

  unfoldable pub plan_steps : ClassId → List Step
  plan_steps class_id =
      setup_steps
      ++ (dhcp_steps (scenario class_id).dhcp_server ns root
          ++ (ap_steps
              ++ (occupant_steps class_id ns p root
                  ++ (station_steps
                      ++ (deauth_steps class_id ns p root ++ delay observe_ms ∷ [])))))

unfoldable pub cleanup_plan : Namespaces → List Argv
cleanup_plan ns =
    (codes "ip" ∷ codes "netns" ∷ codes "delete" ∷ ns.occupant ∷ [])
    ∷ (codes "ip" ∷ codes "netns" ∷ codes "delete" ∷ ns.station ∷ [])
    ∷ (codes "ip" ∷ codes "netns" ∷ codes "delete" ∷ ns.ap ∷ [])
    ∷ (codes "modprobe" ∷ codes "-r" ∷ codes "mac80211_hwsim" ∷ [])
    ∷ []

-- `digest` is SHA-256 in hexadecimal, and `p` is what `draw_parameters` gives for the seed.
unfoldable pub command_plan :
    ClassId → Parameters → (Text → Text) → ℕ → Phys → Text → List Step × List Argv
command_plan class_id p digest seed phys root =
    let ns = namespaces_of (bundle_id digest class_id seed) in
    (plan_steps p ns phys root class_id, cleanup_plan ns)

-- `argv[:n] == prefix`
unfoldable pub has_prefix : Argv → Argv → Bool
has_prefix [] argv = true
has_prefix (w ∷ ws) [] = false
has_prefix (w ∷ ws) (a ∷ argv) = text_eq w a && has_prefix ws argv

-- `argv[3]`, where the command has it.
unfoldable pub fourth : Argv → Text
fourth (a ∷ b ∷ c ∷ d ∷ rest) = d
fourth _ = []

abbrev pub netns_add : Argv
netns_add = codes "ip" ∷ codes "netns" ∷ codes "add" ∷ []

abbrev pub netns_delete : Argv
netns_delete = codes "ip" ∷ codes "netns" ∷ codes "delete" ∷ []

abbrev pub load_module : Argv
load_module = codes "modprobe" ∷ codes "mac80211_hwsim" ∷ []
