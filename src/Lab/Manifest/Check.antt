-- ===== src/Lab/Manifest/Check.antt =====
-- write_manifest and verify_manifest of lab/manifest.py.
use airtrace.Prelude.{
  ℕ, Bool, true, false, not, Option, none, some, List, [], ◌∷◌, ◌++◌, ◌&&◌, ◌||◌, ◌==◌, map,
  filter_by,
}
use airtrace.Text.Base.{Text, codes}
use airtrace.Text.Order.{text_eq}
use airtrace.Lab.Dataset.{Split, MetaResult, accepted, refused, validate_meta, seed_schedule}
use airtrace.Lab.Manifest.{
  File, Bundle, Tree, Details, Entry, Summary, Outcome, parameter_ranges, same_ranges, Manifest,
  ranges_disagree, bad_fields, observed_disagrees, links, unread, no_schedule, off_schedule,
  not_opaque, repeated, unsafe_bundle, incomplete, unsafe_file, changed_file, seed_disagrees,
  details_disagree, commit_disagrees, quarantine_disagrees, extra_files, Verdict, fine, bad,
  and_then, require, given, same_bool, split_eq, same_reason, same_list, same_option, same_pair,
  find_file, find_bundle, has_keys, any_link, split_of, environment_record, quarantine_summary,
}
use airtrace.Lab.Scenarios.{bundle_id, class_name}

-- `validate_meta(json.loads(...))`
unfoldable pub validated : Details → MetaResult → Verdict Details
validated d (accepted m) = fine (record d { meta = m })
validated d (refused e) = bad unread

unfoldable pub load_meta : Option Details → Verdict Details
load_meta none = bad unread
load_meta (some d) = validated d (validate_meta d.meta)

-- The text of meta.json, and what it holds; a missing file cannot be read.
unfoldable pub decoded : (Text → Option Details) → Option Text → Option Details
decoded decode none = none
decoded decode (some text) = decode text

unfoldable pub read_meta : (Text → Option Details) → List File → Verdict Details
read_meta decode files = load_meta (decoded decode (find_file files (codes "meta.json")))

-- The fields of an entry, and the test that a set of names is this one.
abbrev pub entry_keys : List Text
entry_keys =
    codes "id"
    ∷ codes "path"
    ∷ codes "split"
    ∷ codes "seed"
    ∷ codes "files"
    ∷ codes "quarantined"
    ∷ codes "quarantine_reasons"
    ∷ codes "injection_verified"
    ∷ codes "capture_health"
    ∷ codes "log_scrub"
    ∷ codes "environment"
    ∷ []

unfoldable pub has_name : List Text → Text → Bool
has_name [] n = false
has_name (m ∷ ms) n = text_eq m n || has_name ms n

unfoldable pub names_in : List Text → List Text → Bool
names_in [] ns = true
names_in (m ∷ ms) ns = has_name ns m && names_in ms ns

unfoldable pub has_entry_keys : List Text → Bool
has_entry_keys keys = names_in keys entry_keys && names_in entry_keys keys

unfoldable pub entry_of : (Text → Text) → Bundle → Details → Entry
entry_of digest b d = record {
  keys = entry_keys;
  id = b.name;
  path = b.name;
  split = d.split;
  seed = d.seed;
  files = map (λ (f : File). (f.name, digest f.content)) b.files;
  quarantined = d.meta.quarantined;
  quarantine_reasons = d.meta.quarantine_reasons;
  injection_verified = d.meta.injection_verified;
  capture_health = d.meta.capture_health;
  log_scrub = d.log_scrub;
  environment = environment_record d;
}

-- `(label, seed)`, and whether it is in `seen`.
abbrev pub Identity : Type 0
Identity = Text × ℕ

unfoldable pub identity : Details → Identity
identity d = (class_name d.label, d.seed)

unfoldable pub was_seen : List Identity → Identity → Bool
was_seen [] (label, seed) = false
was_seen ((l, s) ∷ seen) (label, seed) = text_eq l label && s == seed || was_seen seen (label, seed)

unfoldable pub agrees : Option Split → Split → Bool
agrees none s = false
agrees (some t) s = split_eq t s

-- Whether `glob("*/meta.json")` finds the directory.
unfoldable pub has_meta : Bundle → Bool
has_meta b = elim (find_file b.files (codes "meta.json")) [ none ↦ false | some t ↦ true ]

module _ (digest : Text → Text) (decode : Text → Option Details) where
  -- The loop of `write_manifest` over the directories with a meta.json: the entries and the outcomes.
  unfoldable pub write_entries :
      List (Split × ℕ) → List Bundle → List Identity → Verdict (List Entry × List Outcome)
  write_entries schedule [] seen = fine ([], [])
  write_entries schedule (b ∷ bs) seen = and_then (read_meta decode b.files) (λ d.
      require (agrees (split_of schedule d.seed) d.split) off_schedule (
        require (text_eq b.name (bundle_id digest d.label d.seed)) not_opaque (
          require (not (was_seen seen (identity d))) repeated (
            require (not (any_link b.files)) links (
              and_then (write_entries schedule bs (identity d ∷ seen))
                (λ rest. fine (entry_of digest b d ∷ rest.0, (d.label, d.observed) ∷ rest.1)))))))

-- The manifest for entries and outcomes.
unfoldable pub manifest_for :
    (List Outcome → Text) → ℕ → Text → List Entry × List Outcome → Manifest
manifest_for summary seed_base commit (entries, outcomes) = record {
  parameter_ranges = some parameter_ranges;
  commit = commit;
  seed_base = seed_base;
  bundles = entries;
  quarantine = quarantine_summary entries;
  observed_summary = some (summary outcomes);
}

-- `write_manifest`: the manifest, and the text of manifest.json.
unfoldable pub write_manifest :
    (Text → Text)
    → (Text → Option Details)
    → (List Outcome → Text)
    → (Manifest → Text)
    → Tree
    → ℕ
    → Text
    → Verdict (Manifest × Text)
write_manifest digest decode summary print tree seed_base commit =
    and_then (given (seed_schedule seed_base 12 none) no_schedule) (λ schedule.
      and_then (write_entries digest decode schedule (filter_by has_meta tree.bundles) [])
        (λ written. let m = manifest_for summary seed_base commit written in fine (m, print m)))

unfoldable pub same_summary : Summary → Summary → Bool
same_summary a b =
    a.total == b.total
    && (a.run_failed == b.run_failed
        && (a.injection_unverified == b.injection_unverified
            && a.capture_unhealthy == b.capture_unhealthy))

abbrev pub required_files : List Text
required_files =
    codes "capture.pcap"
    ∷ codes "hostapd.log"
    ∷ codes "wpa_supplicant.log"
    ∷ codes "dhcp_server.log"
    ∷ codes "dhcp_client.log"
    ∷ codes "meta.json"
    ∷ []

-- A file by the directory and the name that its path resolves to.
abbrev pub Place : Type 0
Place = Text × Text

unfoldable pub has_place : List Place → Place → Bool
has_place [] p = false
has_place (q ∷ qs) p = same_pair q p || has_place qs p

unfoldable pub all_in : List Place → List Place → Bool
all_in [] qs = true
all_in (p ∷ ps) qs = has_place qs p && all_in ps qs

-- Equality of dicts.
unfoldable pub same_dict : List Place → List Place → Bool
same_dict a b = all_in a b && all_in b a

-- The fields of an entry that `expected_details` compares.
unfoldable pub same_details : Entry → Entry → Bool
same_details a b =
    same_bool a.quarantined b.quarantined
    && (same_list same_reason a.quarantine_reasons b.quarantine_reasons
        && (same_bool a.injection_verified b.injection_verified
            && (same_option same_bool a.capture_health.healthy b.capture_health.healthy
                && (same_option ◌==◌ a.capture_health.ap_beacons b.capture_health.ap_beacons
                    && (text_eq a.log_scrub b.log_scrub
                        && (text_eq a.environment.kernel b.environment.kernel
                            && same_dict a.environment.tool_versions
                                b.environment.tool_versions))))))

unfoldable pub places_of : List Bundle → List Place
places_of [] = []
places_of (b ∷ bs) = map (λ (f : File). (b.name, f.name)) b.files ++ places_of bs

unfoldable pub files_of : Option Bundle → List File
files_of none = []
files_of (some b) = b.files

-- `dataset / path` and `bundle / name`, resolved: the name below the dataset, or below the directory,
-- where the path stays there.
pub record Paths : Type 0 where
  pub bundle_at : Text → Option Text
  pub file_at : Text → Option Text

unfoldable pub link_free : Tree → Bool
link_free tree = not (any_link tree.others) && links_free tree.bundles
  where
    links_free : List Bundle → Bool
    links_free [] = true
    links_free (b ∷ bs) = not (any_link b.files) && links_free bs

unfoldable pub no_files : List File → Bool
no_files [] = true
no_files (f ∷ fs) = false

module _ (digest : Text → Text) (decode : Text → Option Details) (paths : Paths) where
  -- The loop over the files of an entry.
  unfoldable pub check_files : List File → Text → List (Text × Text) → Verdict (List Place)
  check_files files dir [] = fine []
  check_files files dir ((name, expected) ∷ rest) =
      and_then (given (paths.file_at name) unsafe_file) (λ n.
        and_then (given (find_file files n) changed_file) (λ content.
          require (text_eq (digest content) expected) changed_file
            (and_then (check_files files dir rest) (λ places. fine ((dir, n) ∷ places)))))

  -- What is checked of an entry before its metadata: the places of its files.
  unfoldable pub check_contents : List Bundle → Entry → Verdict (List Place)
  check_contents bundles e = and_then (given (paths.bundle_at e.path) unsafe_bundle) (λ n.
      require (text_eq n e.id) unsafe_bundle (
        require (has_keys e.files required_files) incomplete
          (check_files (files_of (find_bundle bundles e.id)) e.id e.files)))

  -- The loop over the entries: the places of their files, and the outcomes.
  unfoldable pub verify_entries :
      List (Split × ℕ)
      → List Bundle
      → Text
      → List Entry
      → List Identity
      → Verdict (List Place × List Outcome)
  verify_entries schedule bundles commit [] seen = fine ([], [])
  verify_entries schedule bundles commit (e ∷ es) seen =
      require (has_entry_keys e.keys) bad_fields (
        require (agrees (split_of schedule e.seed) e.split) off_schedule (
          and_then (check_contents bundles e) (λ places.
            and_then (read_meta decode (files_of (find_bundle bundles e.id))) (λ d.
              require (text_eq e.id (bundle_id digest d.label d.seed)) not_opaque (
                require (not (was_seen seen (identity d))) repeated (
                  require (d.seed == e.seed && split_eq d.split e.split) seed_disagrees (
                    require
                      (same_details e (entry_of digest (record { name = e.id; files = [] }) d))
                      details_disagree
                      (require (text_eq d.commit commit) commit_disagrees (
                        and_then (verify_entries schedule bundles commit es (identity d ∷ seen))
                          (λ later.
                            fine (places ++ later.0, (d.label, d.observed) ∷ later.1)))))))))))

unfoldable pub is_given : Option Text → Bool
is_given none = false
is_given (some t) = true

unfoldable pub any_observed : List Outcome → Bool
any_observed [] = false
any_observed ((label, observed) ∷ outcomes) = is_given observed || any_observed outcomes

-- The summary is compared where there is one, or where a state was observed.
unfoldable pub agrees_on_observed : (List Outcome → Text) → Option Text → List Outcome → Bool
agrees_on_observed summary recorded outcomes =
    not (is_given recorded || any_observed outcomes)
    || same_option text_eq recorded (some (summary outcomes))

-- The checks of a manifest that was read.
unfoldable pub verify_read :
    (Text → Text)
    → (Text → Option Details)
    → Paths
    → (List Outcome → Text)
    → Tree
    → Manifest
    → Verdict Manifest
verify_read digest decode paths summary tree m =
    require (same_option same_ranges m.parameter_ranges (some parameter_ranges)) ranges_disagree (
      and_then (given (seed_schedule m.seed_base 12 none) no_schedule) (λ schedule.
        and_then (verify_entries digest decode paths schedule tree.bundles m.commit m.bundles [])
          (λ found.
            require (same_summary m.quarantine (quarantine_summary m.bundles)) quarantine_disagrees
              (require (agrees_on_observed summary m.observed_summary found.1) observed_disagrees (
                require
                  (no_files tree.others
                    && (all_in (places_of tree.bundles) found.0
                        && all_in found.0 (places_of tree.bundles)))
                  extra_files (fine m))))))

-- `verify_manifest`, for the text of manifest.json.
unfoldable pub verify_manifest :
    (Text → Text)
    → (Text → Option Details)
    → Paths
    → (List Outcome → Text)
    → (Text → Option Manifest)
    → Tree
    → Text
    → Verdict Manifest
verify_manifest digest decode paths summary parse tree text =
    require (link_free tree) links
      (and_then (given (parse text) unread) (verify_read digest decode paths summary tree))
