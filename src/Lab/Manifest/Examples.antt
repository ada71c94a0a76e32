-- ===== src/Lab/Manifest/Examples.antt =====
-- A dataset of one bundle, written and verified.
use airtrace.Prelude.{◌≡◌, refl, subst, true, false, Option, none, some, [], ◌∷◌, List, map, All}
use airtrace.Text.Base.{Text, codes}
use airtrace.Text.Number.{show}
use airtrace.Text.Order.{text_eq}
use airtrace.Triage.Schema.{ok}
use airtrace.Lab.Dataset.{
  dev, Split, Status, BundleMeta, seed_schedule, complete_class, validate_meta, both_times,
  with_times, guard, with_health, reasons_of, reason_if, any_reason, is_naive, is_failed,
  lacks_error, all_passed, is_empty_list,
}
use airtrace.Lab.Dataset
use airtrace.Lab.Manifest.{
  File, Tree, Details, Outcome, Manifest, Verdict, fine, bad, and_then, require, given, same_bool,
  split_eq, same_reason, same_list, same_option, same_pair, find_file, find_bundle, has_key,
  has_keys, any_link, split_of, set_defaults, environment_record, quarantine_summary,
}
use airtrace.Lab.Scenarios.{bundle_id, class_name}
use airtrace.Lab.Manifest.Check.{
  validated, load_meta, decoded, read_meta, entry_of, identity, was_seen, agrees, has_meta,
  write_entries, manifest_for, write_manifest, files_of, link_free, Paths, verify_manifest,
}
use airtrace.Lab.Manifest.Chain.{OfFine}
use airtrace.Lab.Manifest.RoundTrip.{IsKept, verify_manifest-write}
use airtrace.Lab.Manifest.Intact.{IsIntact, verify_manifest-IsIntact}

abbrev meta : BundleMeta
meta = record {
  started_at = some 3;
  ended_at = some 8;
  scenario_started_at = some (some 4);
  observed_types = true;
  status = Dataset.ok;
  error = none;
  injection_verified = true;
  verification = true ∷ [];
  capture_health = record { healthy = some true; ap_beacons = some 2 };
  quarantined = true;
  quarantine_reasons = [];
}

abbrev details : Details
details = record {
  label = ok;
  seed = 5;
  split = dev;
  commit = codes "c0";
  kernel = codes "6.1";
  tool_versions = [];
  log_scrub = [];
  observed = some (codes "{}");
  meta = meta;
}

-- A digest that keeps the text, for which the bundle's name is short.
abbrev digest : Text → Text
digest t = t

abbrev decode : Text → Option Details
decode t = some details

abbrev paths : Paths
paths = record { bundle_at = λ p. some p; file_at = λ p. some p }

abbrev file : Text → File
file n = record { name = n; content = 120 ∷ []; is_link = false }

abbrev tree : Tree
tree = record {
  bundles =
      record {
        name = codes "airtrace-lab";
        files = map file (
            codes "capture.pcap"
            ∷ codes "hostapd.log"
            ∷ codes "wpa_supplicant.log"
            ∷ codes "dhcp_server.log"
            ∷ codes "dhcp_client.log"
            ∷ codes "meta.json"
            ∷ []);
      }
      ∷ [];
  others = [];
}

abbrev no_manifest : Manifest
no_manifest = record {
  parameter_ranges = none;
  commit = [];
  seed_base = 0;
  bundles = [];
  quarantine = record {
    total = 0;
    run_failed = 0;
    injection_unverified = 0;
    capture_unhealthy = 0;
  };
  observed_summary = none;
}

abbrev summary : List Outcome → Text
summary outcomes = codes "{}"

manifest_of : Verdict (Manifest × Text) → Manifest
manifest_of (fine (m, text)) = m
manifest_of (bad e) = no_manifest

-- JSON at this dataset: manifests that differ in their commit only.
abbrev print : Manifest → Text
print m = m.commit

written : Manifest
unfolding manifest_of
written = manifest_of (write_manifest digest decode summary print tree 5 (codes "c0"))

abbrev parse : Text → Option Manifest
parse text = some (record written { commit = text })

runs : Unit {0}
unfolding text_eq show seed_schedule Dataset.same_split complete_class validate_meta both_times
    with_times guard with_health reasons_of reason_if any_reason is_naive is_failed lacks_error
    all_passed is_empty_list and_then require given same_bool split_eq same_reason same_list
    same_option same_pair find_file find_bundle has_key has_keys any_link split_of set_defaults
    environment_record quarantine_summary class_name bundle_id validated load_meta decoded read_meta
    entry_of identity was_seen agrees has_meta write_entries manifest_for write_manifest manifest_of
    files_of link_free written
runs = tt

no_links : link_free tree ≡ true
unfolding runs
no_links = refl

kept : All (IsKept digest decode paths tree (codes "c0")) tree.bundles
unfolding runs
kept = (
  (
    refl,
    refl,
    refl,
    refl,
    (
      (refl, refl),
      ((refl, refl), ((refl, refl), ((refl, refl), ((refl, refl), ((refl, refl), tt))))),
    ),
    λ d h. subst (OfFine (λ (x : Details). x.commit ≡ codes "c0")) h refl,
  ),
  tt,
)

written_so :
    write_manifest digest decode summary print tree 5 (codes "c0") ≡ fine (written, print written)
unfolding runs
written_so = refl

read_back : parse (print written) ≡ some written
unfolding runs
read_back = refl

verify_manifest-write_example :
    verify_manifest digest decode paths summary parse tree (print written) ≡ fine written
verify_manifest-write_example =
    verify_manifest-write digest decode paths summary print parse tree (codes "c0") 5 written
      (print written) refl no_links kept written_so read_back

verify_manifest-IsIntact_example :
    (parse (print written) ≡ some written)
    × All (IsIntact digest decode paths tree.bundles written.commit) written.bundles
verify_manifest-IsIntact_example =
    verify_manifest-IsIntact digest decode paths summary parse tree (print written) written
      verify_manifest-write_example
