-- ===== src/Lab/Verify.antt =====
-- verify_injection of lab/verify.py: the checks of the imposed settings and actions. `lower` is Python's
-- str.lower; the replies of the queries are arguments, `none` where the query raised an exception.
pub mod Checks
pub mod Imposed
pub mod Made
pub mod Acknowledged
mod Examples
use airtrace.Prelude.{
  ℕ, Bool, true, false, not, Option, none, some, List, [], ◌∷◌, ◌++◌, ◌&&◌, ◌||◌, ◌==◌, map,
  if◌then◌else◌,
}
use airtrace.Text.Base.{Text, codes, is_space, is_blank, starts_with, contains, splitlines_keep}
use airtrace.Text.Order.{text_eq}
use airtrace.Triage.Schema.{
  ClassId, ok, wrong_passphrase, akm_mismatch, pmf_required_unsupported, mac_denied, ap_full,
  dhcp_no_server, ap_deauth, ssid_not_found,
}
use airtrace.Lab.Scenarios.{Parameters}
use airtrace.Lab.Scenarios.Configs.{station_ssid}
use airtrace.Lab.Run.Plan.{Argv, Namespaces, control_query}
use airtrace.Lab.Run.State.{Outcome, completed, Entry, command, Process}
use airtrace.Lab.Run.Executor.{Reply}

pub data Query : Type 0 where
  ap_status ap_config station_status station_ssid_query station_pmf : Query
  deny_acl occupant_authorized : Query

-- `verification_commands`
unfoldable pub class_commands : ClassId → Namespaces → Text → Parameters → List (Query × Argv)
class_commands mac_denied ns root p =
    (
      deny_acl,
      control_query ns.ap (codes "hostapd_cli") (root ++ codes "/ap-control") (codes "wlan0")
          (codes "deny_acl" ∷ codes "SHOW" ∷ []),
    )
    ∷ []
class_commands ap_full ns root p =
    (
      occupant_authorized,
      control_query ns.ap (codes "hostapd_cli") (root ++ codes "/ap-control") (codes "wlan0")
          (codes "sta" ∷ p.occupant_mac ∷ []),
    )
    ∷ []
class_commands _ ns root p = []

unfoldable pub verification_commands :
    ClassId → Namespaces → Text → Parameters → List (Query × Argv)
verification_commands c ns root p =
    let ap =
      control_query ns.ap (codes "hostapd_cli") (root ++ codes "/ap-control") (codes "wlan0") in
    let station =
      control_query ns.station (codes "wpa_cli") (root ++ codes "/sta-control") (codes "wlan1") in
    (ap_status, ap (codes "status" ∷ []))
    ∷ (ap_config, ap (codes "get_config" ∷ []))
    ∷ (station_status, station (codes "status" ∷ []))
    ∷ (station_ssid_query, station (codes "get_network" ∷ codes "0" ∷ codes "ssid" ∷ []))
    ∷ (station_pmf, station (codes "get_network" ∷ codes "0" ∷ codes "ieee80211w" ∷ []))
    ∷ class_commands c ns root p

-- `str.strip`, of blanks and of quotation marks.
unfoldable pub lstrip : (ℕ → Bool) → Text → Text
lstrip drops [] = []
lstrip drops (c ∷ cs) = let rest = lstrip drops cs in if drops c then rest else c ∷ cs

unfoldable pub all_of : (ℕ → Bool) → Text → Bool
all_of drops [] = true
all_of drops (c ∷ cs) = drops c && all_of drops cs

unfoldable pub rstrip : (ℕ → Bool) → Text → Text
rstrip drops [] = []
rstrip drops (c ∷ cs) = let rest = rstrip drops cs in if all_of drops (c ∷ cs) then [] else c ∷ rest

unfoldable pub strip : Text → Text
strip t = rstrip is_space (lstrip is_space t)

unfoldable pub strip_quotes : Text → Text
strip_quotes t = rstrip (λ c. c == 34) (lstrip (λ c. c == 34) t)

-- `line.split("=", 1)`, for a line with an equals sign.
unfoldable pub split_equals : Text → Option (Text × Text)
split_equals [] = none
split_equals (c ∷ cs) =
    let rest = split_equals cs in
    if c == 61 then some ([], cs) else elim rest [ none ↦ none | some (k, v) ↦ some (c ∷ k, v) ]

unfoldable pub add_value : Option (Text × Text) → List (Text × Text) → List (Text × Text)
add_value none values = values
add_value (some kv) values = kv ∷ values

-- `config_values`
unfoldable pub config_of : List Text → List (Text × Text)
config_of [] = []
config_of (l ∷ ls) = add_value (split_equals (strip l)) (config_of ls)

unfoldable pub config_values : Text → List (Text × Text)
config_values text = config_of (splitlines_keep text)

-- `values.get(key)`: the last line of a key counts.
unfoldable pub value_of : List (Text × Text) → Text → Option Text
value_of [] key = none
value_of ((k, v) ∷ rest) key = elim (value_of rest key) [
  | some w ↦ some w
  | none ↦ if text_eq k key then some v else none
]

unfoldable pub value_is : Option Text → Text → Bool
value_is none t = false
value_is (some v) t = text_eq v t

unfoldable pub or_empty : Option Text → Text
or_empty none = []
or_empty (some t) = t

-- A reply that reports a failure on a line.
unfoldable pub fails_in : List Text → Bool
fails_in [] = false
fails_in (l ∷ ls) =
    text_eq (strip l) (codes "FAIL") || starts_with (codes "FAIL-") (strip l) || fails_in ls

unfoldable pub query_passed : Option Reply → Bool
query_passed none = false
query_passed (some r) = r.succeeded && not (fails_in (splitlines_keep r.stdout))

-- `responses.get(name, "")`
unfoldable pub response : Option Reply → Text
response none = []
response (some r) = if r.succeeded then strip r.stdout else []

unfoldable pub has_word : Argv → Text → Bool
has_word [] w = false
has_word (a ∷ argv) w = text_eq a w || has_word argv w

-- An entry of the records: its command, whether its exit code is 0, and its output.
unfoldable pub is_completion : Entry → Bool
is_completion (command argv timeout (completed succeeded out)) =
    has_word argv (codes "status") && contains (codes "wpa_state=COMPLETED") out
is_completion _ = false

unfoldable pub is_acknowledgement : Entry → Bool
is_acknowledgement (command argv timeout (completed succeeded out)) =
    has_word argv (codes "deauthenticate") && (succeeded && contains (codes "OK") out)
is_acknowledgement _ = false

-- The loop over the records, up to the first acknowledgement.
unfoldable pub acknowledged : Bool → List Entry → Bool
acknowledged before [] = false
acknowledged before (e ∷ es) =
    let later = acknowledged (before || is_completion e) es in
    if is_acknowledgement e then before || is_completion e else later
