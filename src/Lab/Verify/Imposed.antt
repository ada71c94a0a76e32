-- ===== src/Lab/Verify/Imposed.antt =====
-- What the checks of verify_injection in lab/verify.py establish, written without those checks.
use airtrace.Prelude.{
  ◌≡◌, ◌≢◌, ◌⊎◌, refl, inl, inr, subst, Bool, true, false, not, Option, none, some, List, [], ◌∷◌,
  ◌&&◌, ◌||◌, All,
}
use airtrace.Text.Base.{Text, codes, contains, starts_with, splitlines_keep}
use airtrace.Text.Order.{text_eq, text_eq_refl, eq_of_text_eq}
use airtrace.Triage.Schema.{
  ClassId, ok, wrong_passphrase, akm_mismatch, pmf_required_unsupported, mac_denied, ap_full,
  dhcp_no_server, ap_deauth, ssid_not_found,
}
use airtrace.Lab.Scenarios.{Parameters}
use airtrace.Lab.Run.State.{Process}
use airtrace.Lab.Run.Executor.{Reply}
use airtrace.Lab.Verify.{
  ap_status, ap_config, station_status, station_ssid_query, station_pmf, deny_acl,
  occupant_authorized, strip, strip_quotes, config_values, value_of, value_is, or_empty,
  query_passed, fails_in, response,
}
use airtrace.Lab.Verify.Checks.{Evidence, has_log, launched}
use airtrace.Lab.Verify.Acknowledged.{ComesAfter}

-- A line that does not report a failure.
abbrev pub IsNoFailure : Text → Type 0
IsNoFailure l = (strip l ≢ codes "FAIL") × (starts_with (codes "FAIL-") (strip l) ≡ false)

-- A query that was answered, and whose answer reports no failure.
abbrev pub Answered : Option Reply → Type 0
Answered none = ⊥
Answered (some r) = (r.succeeded ≡ true) × All IsNoFailure (splitlines_keep r.stdout)

abbrev pub IsAmong : Text → List Text → Type 0
IsAmong t [] = ⊥
IsAmong t (l ∷ ls) = (l ≡ t) ⊎ IsAmong t ls

-- What the station is to look for, and whether it offers protected management frames.
abbrev pub sought_ssid : ClassId → Parameters → Text
sought_ssid ssid_not_found p = p.absent_ssid
sought_ssid _ p = p.ssid

abbrev pub offered_pmf : ClassId → Text
offered_pmf pmf_required_unsupported = codes "0"
offered_pmf _ = codes "1"

-- What holds of every class: the daemons are alive and answer, the access point is enabled with its
-- network, and the station has its network and its setting of protected management frames.
abbrev pub IsReady : ClassId → Parameters → Evidence → Type 0
IsReady c p e =
    IsAmong (codes "hostapd.log") e.active
    × IsAmong (codes "wpa_supplicant.log") e.active
    × (contains (codes "state=ENABLED") (response (e.reply ap_status)) ≡ true)
    × (value_of (config_values (response (e.reply ap_config))) (codes "ssid") ≡ some p.ssid)
    × (strip_quotes (response (e.reply station_ssid_query)) ≡ sought_ssid c p)
    × (response (e.reply station_pmf) ≡ offered_pmf c)
    × (contains (codes "wpa_state=") (response (e.reply station_status)) ≡ true)

-- All queries of a class were answered.
abbrev pub AllAnswered : ClassId → Evidence → Type 0
AllAnswered mac_denied e =
    Answered (e.reply ap_status)
    × Answered (e.reply ap_config)
    × Answered (e.reply station_status)
    × Answered (e.reply station_ssid_query)
    × Answered (e.reply station_pmf)
    × Answered (e.reply deny_acl)
    × Unit {0}
AllAnswered ap_full e =
    Answered (e.reply ap_status)
    × Answered (e.reply ap_config)
    × Answered (e.reply station_status)
    × Answered (e.reply station_ssid_query)
    × Answered (e.reply station_pmf)
    × Answered (e.reply occupant_authorized)
    × Unit {0}
AllAnswered _ e =
    Answered (e.reply ap_status)
    × Answered (e.reply ap_config)
    × Answered (e.reply station_status)
    × Answered (e.reply station_ssid_query)
    × Answered (e.reply station_pmf)
    × Unit {0}

-- The setting or the action that makes the class.
abbrev pub IsCaused : (Text → Text) → ClassId → Parameters → Evidence → Type 0
IsCaused lower ok p e = Unit
IsCaused lower wrong_passphrase p e =
    (strip_quotes (or_empty (value_of (config_values e.station_conf) (codes "psk")))
      ≡ p.wrong_passphrase)
    × (value_of (config_values e.hostapd_conf) (codes "wpa_passphrase") ≡ some p.passphrase)
    × (p.passphrase ≢ p.wrong_passphrase)
IsCaused lower akm_mismatch p e =
    (strip (or_empty (value_of (config_values (response (e.reply ap_config))) (codes "key_mgmt")))
      ≡ codes "SAE")
    × (value_of (config_values e.station_conf) (codes "key_mgmt") ≡ some (codes "WPA-PSK"))
IsCaused lower pmf_required_unsupported p e =
    value_of (config_values e.hostapd_conf) (codes "ieee80211w") ≡ some (codes "2")
IsCaused lower mac_denied p e =
    contains (lower p.station_mac) (lower (response (e.reply deny_acl))) ≡ true
IsCaused lower ap_full p e =
    (value_of (config_values e.hostapd_conf) (codes "max_num_sta") ≡ some (codes "1"))
    × (contains (codes "[AUTHORIZED]") (response (e.reply occupant_authorized)) ≡ true)
IsCaused lower dhcp_no_server p e =
    All (λ (q : Process). q.log ≢ codes "dhcp_server.log") e.processes
IsCaused lower ap_deauth p e = ComesAfter false e.records
IsCaused lower ssid_not_found p e = p.ssid ≢ p.absent_ssid

-- The DHCP server is alive in every class but the one without it.
abbrev pub IsServing : ClassId → Evidence → Type 0
IsServing dhcp_no_server e = Unit
IsServing _ e = IsAmong (codes "dhcp_server.log") e.active

abbrev pub Imposed : (Text → Text) → ClassId → Parameters → Evidence → Type 0
Imposed lower c p e = AllAnswered c e × IsReady c p e × IsCaused lower c p e × IsServing c e

pub both : (a b : Bool) → (a && b) ≡ true → (a ≡ true) × (b ≡ true)
both true b h = (refl, h)
both false b h = cc

pub denied : (b : Bool) → not b ≡ true → b ≡ false
denied true h = cc
denied false h = refl

pub different : (s t : Text) → not (text_eq s t) ≡ true → s ≢ t
different s t h e =
    clash (text_eq s t) (denied _ h) (subst (λ (x : Text). text_eq s x ≡ true) e (text_eq_refl s))
  where
    clash : (b : Bool) → b ≡ false → b ≡ true → ⊥
    clash true f k = cc
    clash false f k = cc

pub value_is-some : (o : Option Text) (t : Text) → value_is o t ≡ true → o ≡ some t
unfolding value_is
value_is-some none t h = cc
value_is-some (some v) t h = let same = eq_of_text_eq v t h in cc

either : (a b : Bool) → (a || b) ≡ true → (a ≡ true) ⊎ (b ≡ true)
either true b h = inl refl
either false b h = inr h

neither : (a b : Bool) → (a || b) ≡ false → (a ≡ false) × (b ≡ false)
neither true b h = cc
neither false b h = (refl, h)

pub has_log-IsAmong : (ls : List Text) (t : Text) → has_log ls t ≡ true → IsAmong t ls
unfolding has_log
has_log-IsAmong [] t h = cc
has_log-IsAmong (l ∷ ls) t h = elim (either _ _ h) [
  | inl e ↦ inl (eq_of_text_eq l t e)
  | inr e ↦ inr (has_log-IsAmong ls t e)
]

unequal : (s t : Text) → text_eq s t ≡ false → s ≢ t
unequal s t h = different s t (rw h refl)

pub launched-none :
    (ps : List Process) (t : Text) → launched ps t ≡ false → All (λ (q : Process). q.log ≢ t) ps
unfolding launched
launched-none [] t h = tt
launched-none (q ∷ ps) t h = let (a, b) = neither _ _ h in (unequal q.log t a, launched-none ps t b)

fails_in-IsNoFailure : (ls : List Text) → fails_in ls ≡ false → All IsNoFailure ls
unfolding fails_in
fails_in-IsNoFailure [] h = tt
fails_in-IsNoFailure (l ∷ ls) h =
    let (first, d) = neither _ _ h in
    let (a, c) = neither _ _ first in ((unequal _ _ a, c), fails_in-IsNoFailure ls d)

pub query_passed-Answered : (o : Option Reply) → query_passed o ≡ true → Answered o
unfolding query_passed
query_passed-Answered none h = cc
query_passed-Answered (some r) h =
    let (a, b) = both _ _ h in (a, fails_in-IsNoFailure _ (denied _ b))
