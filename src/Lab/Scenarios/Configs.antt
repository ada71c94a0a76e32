-- ===== src/Lab/Scenarios/Configs.antt =====
-- `render_configs` of lab/scenarios.py. A file is its lines, each with a line feed behind it.
use airtrace.Prelude.{List, [], ◌∷◌, ◌++◌}
use airtrace.Text.Base.{Text, codes}
use airtrace.Text.Number.{show}
use airtrace.Triage.Schema.{ClassId, wrong_passphrase, mac_denied, ap_full, ssid_not_found}
use airtrace.Lab.Scenarios.{scenario, Parameters}

-- The files by their names.
pub record Configs : Type 0 where
  pub hostapd_conf : Text
  pub station_conf : Text
  pub occupant_conf : Text
  pub deny_txt : Text
  pub dnsmasq_conf : Text
  pub dhcp_script : Text

unfoldable pub unlines : List Text → Text
unlines [] = []
unlines (l ∷ ls) = l ++ 10 ∷ unlines ls

-- What `mac_denied` and `ap_full` add.
unfoldable pub ap_extra : ClassId → Text → List Text
ap_extra mac_denied directory =
    codes "macaddr_acl=0" ∷ (codes "deny_mac_file=" ++ (directory ++ codes "/deny.txt")) ∷ []
ap_extra ap_full directory = codes "max_num_sta=1" ∷ []
ap_extra _ directory = []

unfoldable pub ap_lines : ClassId → Parameters → Text → List Text
ap_lines c p directory =
    codes "interface=wlan0"
    ∷ codes "driver=nl80211"
    ∷ (codes "ctrl_interface=" ++ (directory ++ codes "/ap-control"))
    ∷ (codes "ssid=" ++ p.ssid)
    ∷ codes "hw_mode=g"
    ∷ (codes "channel=" ++ show p.channel)
    ∷ (codes "bssid=" ++ p.ap_mac)
    ∷ codes "auth_algs=1"
    ∷ codes "wpa=2"
    ∷ codes "rsn_pairwise=CCMP"
    ∷ (codes "wpa_passphrase=" ++ p.passphrase)
    ∷ ((scenario c).ap_options ++ ap_extra c directory)

-- The station's network and secret.
unfoldable pub station_ssid : ClassId → Parameters → Text
station_ssid ssid_not_found p = p.absent_ssid
station_ssid _ p = p.ssid

unfoldable pub station_secret : ClassId → Parameters → Text
station_secret wrong_passphrase p = p.wrong_passphrase
station_secret _ p = p.passphrase

-- The first option stands behind four spaces; the others bring their own.
unfoldable pub indented : List Text → List Text
indented [] = []
indented (o ∷ os) = (codes "    " ++ o) ∷ os

unfoldable pub client_lines : ClassId → Text → Text → Text → Text → List Text
unfolding indented
client_lines c directory network secret control =
    (codes "ctrl_interface=" ++ (directory ++ 47 ∷ control))
    ∷ codes "update_config=0"
    ∷ codes "network={"
    ∷ (codes "    ssid=" ++ 34 ∷ (network ++ 34 ∷ []))
    ∷ (codes "    psk=" ++ 34 ∷ (secret ++ 34 ∷ []))
    ∷ codes "    scan_ssid=1"
    ∷ (indented (scenario c).station_options ++ codes "}" ∷ [])

unfoldable pub station_lines : ClassId → Parameters → Text → List Text
station_lines c p directory =
    client_lines c directory (station_ssid c p) (station_secret c p) (codes "sta-control")

unfoldable pub occupant_lines : ClassId → Parameters → Text → List Text
occupant_lines c p directory =
    client_lines c directory p.ssid p.passphrase (codes "occupant-control")

dnsmasq_lines : Text → List Text
dnsmasq_lines directory =
    codes "interface=wlan0"
    ∷ codes "bind-interfaces"
    ∷ codes "port=0"
    ∷ codes "dhcp-range=192.0.2.20,192.0.2.100,255.255.255.0,10m"
    ∷ codes "dhcp-option=3,192.0.2.1"
    ∷ codes "log-dhcp"
    ∷ codes "log-facility=-"
    ∷ (codes "dhcp-leasefile=" ++ (directory ++ codes "/dnsmasq.leases"))
    ∷ (codes "pid-file=" ++ (directory ++ codes "/dnsmasq.pid"))
    ∷ codes "user=root"
    ∷ []

-- `"` is the code 34.
script_lines : List Text
script_lines =
    codes "#!/bin/sh"
    ∷ (codes "case " ++ 34 ∷ (codes "$1" ++ 34 ∷ codes " in"))
    ∷ codes "  bound|renew)"
    ∷ (codes "    ip -4 address flush dev "
        ++ 34 ∷ (codes "$interface" ++ 34 ∷ codes " scope global"))
    ∷ (codes "    ip address add "
        ++ 34 ∷ (codes "$ip/24" ++ 34 ∷ (codes " dev " ++ 34 ∷ (codes "$interface" ++ 34 ∷ []))))
    ∷ codes "    ;;"
    ∷ codes "esac"
    ∷ codes "exit 0"
    ∷ []

unfoldable pub render_configs : ClassId → Parameters → Text → Configs
unfolding dnsmasq_lines script_lines
render_configs c p directory = record {
  hostapd_conf = unlines (ap_lines c p directory);
  station_conf = unlines (station_lines c p directory);
  occupant_conf = unlines (occupant_lines c p directory);
  deny_txt = unlines (p.station_mac ∷ []);
  dnsmasq_conf = unlines (dnsmasq_lines directory);
  dhcp_script = unlines script_lines;
}
