-- ===== src/Lab/Verify/Made.antt =====
-- What a run that is not quarantined imposed, by the checks of lab/verify.py.
use airtrace.Prelude.{◌≡◌, refl, sym, subst, ◌∙◌, ◌≤◌, Bool, true, false, List, [], ◌∷◌, All-split}
use airtrace.Text.Base.{Text}
use airtrace.Text.Order.{eq_of_text_eq}
use airtrace.Triage.Schema.{
  ClassId, ok, wrong_passphrase, akm_mismatch, pmf_required_unsupported, mac_denied, ap_full,
  dhcp_no_server, ap_deauth, ssid_not_found,
}
use airtrace.Lab.Dataset.{BundleMeta, MetaResult, accepted, is_empty_list}
use airtrace.Lab.Scenarios.{Parameters}
use airtrace.Lab.Scenarios.Configs.{station_ssid}
use airtrace.Lab.Run.Plan.{Namespaces}
use airtrace.Lab.Run.Bundle.{Phase, finished, Phases, run_bundle}
use airtrace.Lab.Run.Bundle.Outputs.{AllPassed}
use airtrace.Lab.Run.Bundle.Proper.{WentThrough, run_bundle-WentThrough}
use airtrace.Lab.Verify.{
  ap_status, ap_config, station_status, station_ssid_query, station_pmf, query_passed,
  class_commands, verification_commands,
}
use airtrace.Lab.Verify.Checks.{
  Evidence, query_checks, expected_pmf, common_checks, class_checks, server_checks,
  verify_injection,
}
use airtrace.Lab.Verify.Acknowledged.{acknowledged-ComesAfter}
use airtrace.Lab.Verify.Imposed.{
  Answered, AllAnswered, IsReady, IsCaused, IsServing, Imposed, sought_ssid, offered_pmf, both,
  denied, different, value_is-some, has_log-IsAmong, launched-none, query_passed-Answered,
}

sought : (c : ClassId) (p : Parameters) → station_ssid c p ≡ sought_ssid c p
unfolding station_ssid
sought ok p = refl
sought wrong_passphrase p = refl
sought akm_mismatch p = refl
sought pmf_required_unsupported p = refl
sought mac_denied p = refl
sought ap_full p = refl
sought dhcp_no_server p = refl
sought ap_deauth p = refl
sought ssid_not_found p = refl

offered : (c : ClassId) → expected_pmf c ≡ offered_pmf c
unfolding expected_pmf
offered ok = refl
offered wrong_passphrase = refl
offered akm_mismatch = refl
offered pmf_required_unsupported = refl
offered mac_denied = refl
offered ap_full = refl
offered dhcp_no_server = refl
offered ap_deauth = refl
offered ssid_not_found = refl

common_checks-IsReady :
    (c : ClassId) (p : Parameters) (e : Evidence) → AllPassed (common_checks c p e) → IsReady c p e
unfolding common_checks
common_checks-IsReady c p e (alive, (enabled, (named, (sought_for, (pmf, (state, end)))))) =
    let (ap, station) = both _ _ alive in
    (
      has_log-IsAmong _ _ ap,
      has_log-IsAmong _ _ station,
      enabled,
      value_is-some _ _ named,
      eq_of_text_eq _ _ sought_for ∙ sought c p,
      eq_of_text_eq _ _ pmf ∙ offered c,
      state,
    )

class_checks-IsCaused :
    (lower : Text → Text) (c : ClassId) (p : Parameters) (e : Evidence)
    → AllPassed (class_checks lower c p e)
    → IsCaused lower c p e
unfolding class_checks station_ssid
class_checks-IsCaused lower ok p e h = tt
class_checks-IsCaused lower wrong_passphrase p e h =
    let (psk, rest) = both _ _ h.0 in
    let (ap, apart) = both _ _ rest in
    (eq_of_text_eq _ _ psk, value_is-some _ _ ap, different _ _ apart)
class_checks-IsCaused lower akm_mismatch p e h =
    let (sae, psk) = both _ _ h.0 in (eq_of_text_eq _ _ sae, value_is-some _ _ psk)
class_checks-IsCaused lower pmf_required_unsupported p e h = value_is-some _ _ h.0
class_checks-IsCaused lower mac_denied p e h = h.0
class_checks-IsCaused lower ap_full p e h =
    let (one, authorized) = both _ _ h.0 in (value_is-some _ _ one, authorized)
class_checks-IsCaused lower dhcp_no_server p e h = launched-none _ _ (denied _ h.0)
class_checks-IsCaused lower ap_deauth p e h = (acknowledged-ComesAfter e.records).0 h.0
class_checks-IsCaused lower ssid_not_found p e h = different _ _ (both _ _ h.0).0

server_checks-IsServing :
    (c : ClassId) (e : Evidence) → AllPassed (server_checks c e) → IsServing c e
unfolding server_checks
server_checks-IsServing ok e h = has_log-IsAmong _ _ h.0
server_checks-IsServing wrong_passphrase e h = has_log-IsAmong _ _ h.0
server_checks-IsServing akm_mismatch e h = has_log-IsAmong _ _ h.0
server_checks-IsServing pmf_required_unsupported e h = has_log-IsAmong _ _ h.0
server_checks-IsServing mac_denied e h = has_log-IsAmong _ _ h.0
server_checks-IsServing ap_full e h = has_log-IsAmong _ _ h.0
server_checks-IsServing dhcp_no_server e h = tt
server_checks-IsServing ap_deauth e h = has_log-IsAmong _ _ h.0
server_checks-IsServing ssid_not_found e h = has_log-IsAmong _ _ h.0

module _ (lower : Text → Text) (c : ClassId) (ns : Namespaces) (root : Text) (p : Parameters)
    (e : Evidence) where
  -- A verification makes checks, and one whose checks all pass has imposed its class.
  verify_injection-some : is_empty_list (verify_injection lower c ns root p e).1 ≡ false
  unfolding verify_injection verification_commands query_checks is_empty_list
  verify_injection-some = refl

  -- The five queries that every class makes.
  abbrev Five : Type 0
  Five =
      Answered (e.reply ap_status)
      × Answered (e.reply ap_config)
      × Answered (e.reply station_status)
      × Answered (e.reply station_ssid_query)
      × Answered (e.reply station_pmf)
      × Unit {0}

  five :
      AllPassed (
        query_passed (e.reply ap_status)
        ∷ query_passed (e.reply ap_config)
        ∷ query_passed (e.reply station_status)
        ∷ query_passed (e.reply station_ssid_query)
        ∷ query_passed (e.reply station_pmf)
        ∷ [])
      → Five
  five (a, (b, (s, (i, (m, end))))) = (
    query_passed-Answered _ a,
    query_passed-Answered _ b,
    query_passed-Answered _ s,
    query_passed-Answered _ i,
    query_passed-Answered _ m,
    tt,
  )

  query_checks-AllAnswered :
      (d : ClassId)
      → AllPassed (query_checks e.reply (verification_commands d ns root p))
      → AllAnswered d e
  unfolding query_checks verification_commands class_commands
  query_checks-AllAnswered mac_denied (a, (b, (s, (i, (m, (x, end)))))) = (
    query_passed-Answered _ a,
    query_passed-Answered _ b,
    query_passed-Answered _ s,
    query_passed-Answered _ i,
    query_passed-Answered _ m,
    query_passed-Answered _ x,
    tt,
  )
  query_checks-AllAnswered ap_full (a, (b, (s, (i, (m, (x, end)))))) = (
    query_passed-Answered _ a,
    query_passed-Answered _ b,
    query_passed-Answered _ s,
    query_passed-Answered _ i,
    query_passed-Answered _ m,
    query_passed-Answered _ x,
    tt,
  )
  query_checks-AllAnswered ok h = five h
  query_checks-AllAnswered wrong_passphrase h = five h
  query_checks-AllAnswered akm_mismatch h = five h
  query_checks-AllAnswered pmf_required_unsupported h = five h
  query_checks-AllAnswered dhcp_no_server h = five h
  query_checks-AllAnswered ap_deauth h = five h
  query_checks-AllAnswered ssid_not_found h = five h

  verify_injection-Imposed :
      AllPassed (verify_injection lower c ns root p e).1 → Imposed lower c p e
  unfolding verify_injection
  verify_injection-Imposed h =
      let (asked, rest) =
        All-split _ (query_checks e.reply (verification_commands c ns root p)) _ h in
      let (common, causes) = All-split _ (common_checks c p e) _ rest in
      let (cause, server) = All-split _ (class_checks lower c p e) _ causes in
      (
        query_checks-AllAnswered c asked,
        common_checks-IsReady c p e common,
        class_checks-IsCaused lower c p e cause,
        server_checks-IsServing c e server,
      )

  -- A run whose verification made these checks, and that is recorded without quarantine, went through
  -- all phases and imposed its class. Every query was answered without a failure, both daemons are
  -- alive, the access point is enabled with its network, and the station looks for the network of its
  -- class with its setting of protected management frames. The cause of the class holds: the two
  -- passphrases of the configurations differ, the access point runs SAE and the station PSK, the access
  -- point requires protected management frames, the station is on the deny list, the only place is
  -- taken by an authorized occupant, no process is a DHCP server, a deauthentication was acknowledged
  -- behind a completed connection, or the networks differ. The DHCP server is alive in every class but
  -- the one without it.
  pub run_bundle-Imposed :
      (phases : Phases) (out : BundleMeta)
      → phases.verification ≡ finished (verify_injection lower c ns root p e).1
      → phases.started_at ≤ phases.ended_at
      → phases.observed_types ≡ true
      → run_bundle c phases ≡ accepted out
      → out.quarantined ≡ false
      → WentThrough c phases × Imposed lower c p e
  run_bundle-Imposed phases out v le typed is clean =
      let made : (checks : List Bool)
          → phases.verification ≡ finished checks
          → is_empty_list checks ≡ false =
        λ checks w. subst (λ (o : Phase (List Bool)). Made o) (sym v ∙ w) verify_injection-some in
      let (written, as_, judged) = run_bundle-WentThrough c phases le typed made in
      let same : written ≡ out = accepted_same written out (sym as_ ∙ is) in
      let through = judged.0 (subst (λ (m : BundleMeta). m.quarantined ≡ false) (sym same) clean) in
      let (checks, w, passed) = through.2 in
      (
        through,
        verify_injection-Imposed (subst (λ (o : Phase (List Bool)). Passed o) (sym w ∙ v) passed),
      )
    where
      accepted_same : (m n : BundleMeta) → MetaResult.accepted m ≡ accepted n → m ≡ n
      accepted_same m n h = cc

      Made : Phase (List Bool) → Type 0
      Made (finished checks) = is_empty_list checks ≡ false
      Made other = Unit

      Passed : Phase (List Bool) → Type 0
      Passed (finished checks) = AllPassed checks
      Passed other = Unit
