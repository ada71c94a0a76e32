-- ===== src/Triage/Citations/Examples.antt =====
-- A citation of a log line, and the theorems at it.
use airtrace.Prelude.{
  [], count_by, false, get_elem?, length, refl, some, true, ◌+◌, ◌-◌, ◌↔◌, ◌∷◌, ◌≡◌, ◌≤◌,
}
use airtrace.Text.Base.{contains, Text, codes, is_space, starts_with}
use airtrace.Text.Order.{text_eq, text_le}
use airtrace.Text.Number.{show}
use airtrace.Json.{Fields, end, field, int, sort_fields, dumps, print, separated, quote, escape}
use airtrace.Triage.Data.{
  render_frame, wpa_supplicant, dhcp_client, View, client, make_view, view_sources, log_of,
  log_or_empty, source_eq, log, mem_source, contains_source,
}
use airtrace.Triage.Schema.{members, strip_ends, Diagnosis, RootCause, solid_chars}
use airtrace.Triage.Citations.{
  spans, covers, covers_from, complete_frame_member, split_from, join_words, normalise,
  line_or_empty, cited_line, matched_log, is_empty_text, occurrences_log, occurrences, matched,
  check_item, tally_item, tally_all, check,
}
use airtrace.Triage.Citations.Counts.{own_valid, check_counts}
use airtrace.Triage.Citations.Frames.{HoldsMember, complete_frame_member_iff}
use airtrace.Triage.Citations.Lines.{matched-Stands}

abbrev seen : View
seen =
    make_view []
      ((wpa_supplicant, codes "started" ∷ codes "wlan1:  associated with the network" ∷ []) ∷ []) []
      client

abbrev cited_text : Text
cited_text = codes "associated   with the"

abbrev cited : Diagnosis
cited = record {
  root_cause = RootCause.unknown_cause;
  evidence =
      record { source = log wpa_supplicant; ref = 2; quote = cited_text; auto = false }
      ∷ record { source = log wpa_supplicant; ref = 1; quote = cited_text; auto = false }
      ∷ record { source = log dhcp_client; ref = 1; quote = cited_text; auto = true }
      ∷ [];
  confidence = codes "0.5";
  fix = [];
}

runs : Unit {0}
unfolding check tally_all tally_item check_item matched matched_log cited_line line_or_empty
    normalise split_from join_words contains starts_with is_space solid_chars occurrences
    occurrences_log is_empty_text contains_source mem_source make_view view_sources log_of
    log_or_empty source_eq
runs = tt

two_own :
    ((check cited seen).valid ≡ 1)
    × ((check cited seen).invalid ≡ 1)
    × ((check cited seen).auto ≡ 1)
unfolding runs
two_own = (refl, refl, refl)

check_counts_example :
    let r = check cited seen in
    (length r.items ≡ 3)
    × (r.auto + r.eligible ≡ 3)
    × (r.eligible ≡ r.valid + r.invalid)
    × (r.valid ≡ count_by (own_valid seen) cited.evidence)
    × (r.ambiguous ≤ r.eligible)
    × ((r.all_valid ≡ true) ↔ (r.valid ≡ r.eligible) × (1 ≤ r.eligible))
check_counts_example = check_counts cited seen

does_match : matched seen (log wpa_supplicant) 2 cited_text ≡ true
unfolding runs
does_match = refl

matched-Stands_example :
    (mem_source wpa_supplicant (view_sources client) ≡ true)
    × (12 ≤ solid_chars (normalise cited_text))
    × (1 ≤ 2)
    × ((line : Text) × (get_elem? (log_or_empty seen.logs wpa_supplicant) (2 - 1) ≡ some line)
        × (contains (normalise cited_text) (normalise line) ≡ true))
unfolding make_view
matched-Stands_example = matched-Stands seen wpa_supplicant 2 cited_text does_match

abbrev beacon : Fields
beacon = field (codes "frame") (int 12) (field (codes "status") (int 0) end)

-- A number's prefix is no member, and the whole member is one.
whole_members_only :
    (complete_frame_member beacon (codes "\"frame\": 1") ≡ false)
    × (complete_frame_member beacon (codes "\"frame\": 12") ≡ true)
unfolding complete_frame_member covers_from covers spans starts_with members strip_ends render_frame
    sort_fields dumps print separated quote escape show text_eq text_le
whole_members_only = (refl, refl)

complete_frame_member_iff_example :
    (complete_frame_member beacon (codes "\"frame\": 12") ≡ true)
    ↔ HoldsMember beacon (codes "\"frame\": 12")
complete_frame_member_iff_example = complete_frame_member_iff beacon (codes "\"frame\": 12")
