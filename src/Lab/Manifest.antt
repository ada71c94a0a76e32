-- ===== src/Lab/Manifest.antt =====
-- lab/manifest.py: write_manifest and verify_manifest over the files of a dataset. The digest of a file,
-- the decoding and printing of JSON and the resolution of a path are parameters, and so is the summary of
-- the observed states, whose text is compared. Delays are in milliseconds.
pub mod Check
pub mod Chain
pub mod Intact
pub mod RoundTrip
mod Examples
use airtrace.Prelude.{
  ℕ, ◌+◌, Bool, true, false, not, Option, none, some, List, [], ◌∷◌, ◌++◌, ◌&&◌, ◌||◌, ◌==◌, map,
  take, count_by, if◌then◌else◌,
}
use airtrace.Text.Base.{Text, codes}
use airtrace.Text.Number.{show}
use airtrace.Text.Order.{text_eq}
use airtrace.Triage.Schema.{
  ClassId, ok, wrong_passphrase, akm_mismatch, pmf_required_unsupported, mac_denied, ap_full,
  dhcp_no_server, ap_deauth, ssid_not_found,
}
use airtrace.Lab.Dataset.{
  Split, dev, test, Reason, run_failed, injection_unverified, capture_unhealthy, CaptureHealth,
  BundleMeta, MetaResult, accepted, refused, validate_meta, seed_schedule,
}

pub record File : Type 0 where
  pub name : Text
  pub content : Text
  pub is_link : Bool

-- A directory of the dataset, with the files below it by their relative paths.
pub record Bundle : Type 0 where
  pub name : Text
  pub files : List File

-- The dataset: its directories, and its other files but manifest.json.
pub record Tree : Type 0 where
  pub bundles : List Bundle
  pub others : List File

-- What the JSON of meta.json holds.
pub record Details : Type 0 where
  pub label : ClassId
  pub seed : ℕ
  pub split : Split
  pub commit : Text
  pub kernel : Text
  pub tool_versions : List (Text × Text)
  pub log_scrub : Text
  pub observed : Option Text
  pub meta : BundleMeta

pub record Environment : Type 0 where
  pub kernel : Text
  pub tool_versions : List (Text × Text)

-- An entry of the manifest; `keys` are the names of its fields, `files` are names with digests.
pub record Entry : Type 0 where
  pub keys : List Text
  pub id : Text
  pub path : Text
  pub split : Split
  pub seed : ℕ
  pub files : List (Text × Text)
  pub quarantined : Bool
  pub quarantine_reasons : List Reason
  pub injection_verified : Bool
  pub capture_health : CaptureHealth
  pub log_scrub : Text
  pub environment : Environment

pub record Summary : Type 0 where
  pub total : ℕ
  pub run_failed : ℕ
  pub injection_unverified : ℕ
  pub capture_unhealthy : ℕ

-- The label of a bundle, with its observed state as it is summarised.
abbrev pub Outcome : Type 0
Outcome = ClassId × Option Text

-- The values of `PARAMETER_RANGES`: the bounds of a draw.
pub record Range : Type 0 where
  pub low : ℕ
  pub high : ℕ

pub record SplitRanges : Type 0 where
  pub channel : Range
  pub ap_delay_ms : Range
  pub station_delay_ms : Range

pub record ParameterRanges : Type 0 where
  pub dev : SplitRanges
  pub test : SplitRanges

abbrev pub parameter_ranges : ParameterRanges
parameter_ranges = record {
  dev = record {
    channel = record { low = 1; high = 6 };
    ap_delay_ms = record { low = 200; high = 1200 };
    station_delay_ms = record { low = 200; high = 1200 };
  };
  test = record {
    channel = record { low = 7; high = 11 };
    ap_delay_ms = record { low = 1500; high = 3000 };
    station_delay_ms = record { low = 1500; high = 3000 };
  };
}

unfoldable pub same_range : Range → Range → Bool
same_range a b = a.low == b.low && a.high == b.high

unfoldable pub same_split_ranges : SplitRanges → SplitRanges → Bool
same_split_ranges a b =
    same_range a.channel b.channel
    && (same_range a.ap_delay_ms b.ap_delay_ms && same_range a.station_delay_ms b.station_delay_ms)

unfoldable pub same_ranges : ParameterRanges → ParameterRanges → Bool
same_ranges a b = same_split_ranges a.dev b.dev && same_split_ranges a.test b.test

-- What manifest.json holds; `none` is a missing key.
pub record Manifest : Type 0 where
  pub parameter_ranges : Option ParameterRanges
  pub commit : Text
  pub seed_base : ℕ
  pub bundles : List Entry
  pub quarantine : Summary
  pub observed_summary : Option Text

-- The exceptions.
pub data BadDataset : Type 0 where
  links unread no_schedule off_schedule not_opaque repeated : BadDataset
  unsafe_bundle incomplete unsafe_file changed_file : BadDataset
  seed_disagrees details_disagree commit_disagrees quarantine_disagrees extra_files : BadDataset
  ranges_disagree bad_fields observed_disagrees : BadDataset

pub data Verdict {ℓ} (A : Type ℓ) : Type ℓ where
  fine : A → Verdict A
  bad : BadDataset → Verdict A

unfoldable pub and_then {ℓ κ} : {A : Type ℓ} {B : Type κ} → Verdict A → (A → Verdict B) → Verdict B
and_then (fine a) next = next a
and_then (bad e) next = bad e

-- `if not holds: raise ...`
unfoldable pub require {ℓ} : {A : Type ℓ} → Bool → BadDataset → Verdict A → Verdict A
require true e later = later
require false e later = bad e

unfoldable pub given {ℓ} : {A : Type ℓ} → Option A → BadDataset → Verdict A
given none e = bad e
given (some a) e = fine a

-- Tests on the values of an entry.
unfoldable pub same_bool : Bool → Bool → Bool
same_bool true b = b
same_bool false b = not b

unfoldable pub split_eq : Split → Split → Bool
split_eq dev dev = true
split_eq test test = true
split_eq _ _ = false

unfoldable pub same_reason : Reason → Reason → Bool
same_reason run_failed run_failed = true
same_reason injection_unverified injection_unverified = true
same_reason capture_unhealthy capture_unhealthy = true
same_reason _ _ = false

unfoldable pub same_list {ℓ} : {A : Type ℓ} → (A → A → Bool) → List A → List A → Bool
same_list eq [] [] = true
same_list eq (x ∷ xs) (y ∷ ys) = eq x y && same_list eq xs ys
same_list eq _ _ = false

unfoldable pub same_option {ℓ} : {A : Type ℓ} → (A → A → Bool) → Option A → Option A → Bool
same_option eq none none = true
same_option eq (some x) (some y) = eq x y
same_option eq _ _ = false

unfoldable pub same_pair : Text × Text → Text × Text → Bool
same_pair (a, b) (c, d) = text_eq a c && text_eq b d

-- `files.get(name)` over a directory, and the directory of a name.
unfoldable pub find_file : List File → Text → Option Text
find_file [] n = none
find_file (f ∷ fs) n =
    let rest = find_file fs n in if text_eq f.name n then some f.content else rest

unfoldable pub find_bundle : List Bundle → Text → Option Bundle
find_bundle [] n = none
find_bundle (b ∷ bs) n = let rest = find_bundle bs n in if text_eq b.name n then some b else rest

unfoldable pub has_key : List (Text × Text) → Text → Bool
has_key [] n = false
has_key ((k, v) ∷ rest) n = text_eq k n || has_key rest n

unfoldable pub has_keys : List (Text × Text) → List Text → Bool
has_keys files [] = true
has_keys files (n ∷ ns) = has_key files n && has_keys files ns

unfoldable pub any_link : List File → Bool
any_link [] = false
any_link (f ∷ fs) = f.is_link || any_link fs

-- `allowed.get(seed)`: the last entry of a seed counts.
unfoldable pub split_of : List (Split × ℕ) → ℕ → Option Split
split_of [] seed = none
split_of ((s, n) ∷ rest) seed = elim (split_of rest seed) [
  | some t ↦ some t
  | none ↦ if n == seed then some s else none
]

-- `environment_record`
abbrev pub version_tools : List Text
version_tools =
    codes "hostapd"
    ∷ codes "wpa_supplicant"
    ∷ codes "dnsmasq"
    ∷ codes "udhcpc"
    ∷ codes "tcpdump"
    ∷ codes "tshark"
    ∷ codes "python"
    ∷ []

unfoldable pub set_defaults : List Text → List (Text × Text) → List (Text × Text)
set_defaults [] versions = versions
set_defaults (n ∷ ns) versions = set_defaults ns (
    if has_key versions n
    then versions
    else versions ++ (n, codes "unavailable: not recorded") ∷ [])

unfoldable pub environment_record : Details → Environment
environment_record d = record {
  kernel = d.kernel;
  tool_versions = set_defaults version_tools d.tool_versions;
}

-- `quarantine_summary`
unfoldable pub quarantine_summary : List Entry → Summary
quarantine_summary entries =
    let counted = λ (r : Reason). count_by (λ (e : Entry). gives r e.quarantine_reasons) entries in
    record {
      total = count_by (λ (e : Entry). e.quarantined) entries;
      run_failed = counted run_failed;
      injection_unverified = counted injection_unverified;
      capture_unhealthy = counted capture_unhealthy;
    }
  where
    gives : Reason → List Reason → Bool
    gives r [] = false
    gives r (x ∷ xs) = same_reason x r || gives r xs
