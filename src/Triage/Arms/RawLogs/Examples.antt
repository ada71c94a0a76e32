-- ===== src/Triage/Arms/RawLogs/Examples.antt =====
-- A log that does not fit, and the theorems at it.
use airtrace.Prelude.{◌≤◌, ◌<◌, ◌≡◌, ◌⊎◌, none, some, List, [], ◌∷◌, length, arith}
use airtrace.Text.Base.{Text, codes}
use airtrace.Text.Number.{show}
use airtrace.Triage.Data.{
  Source, hostapd, wpa_supplicant, dhcp_server, dhcp_client, View, client, make_view, view_sources,
  log_of, log_or_empty, source_eq,
}
use airtrace.Triage.Arms.RawLogs.{Chunk, source_chunk, raw_logs, omission_marker}
use airtrace.Triage.Arms.RawLogs.Budget.{HasRoom, Describes}
use airtrace.Triage.Arms.RawLogs.Account.{many_lines, source_chunk-Describes, raw_logs_budget}

abbrev long_log : List Text
long_log =
    codes "first line of the log"
    ∷ codes "second line of the log"
    ∷ codes "third line of the log"
    ∷ codes "fourth"
    ∷ codes "fifth"
    ∷ []

abbrev observed : View
observed = make_view [] ((wpa_supplicant, long_log) ∷ []) [] client

has_room : HasRoom (codes "log:") long_log 60
unfolding omission_marker show
has_room = omega arith

source_chunk-Describes_example :
    Describes (codes "log:") long_log 60 (source_chunk (codes "log:") long_log 60)
source_chunk-Describes_example = source_chunk-Describes (codes "log:") long_log 60 has_room

short_logs : (s : Source) → length (log_or_empty observed.logs s) < many_lines
unfolding make_view view_sources log_or_empty log_of source_eq
short_logs hostapd = omega arith
short_logs wpa_supplicant = omega arith
short_logs dhcp_server = omega arith
short_logs dhcp_client = omega arith

raw_logs_budget_example :
    (300 < 300) × (raw_logs observed 300 ≡ none)
    ⊎ (text : Text) × (chunks : List (Source × Chunk)) × (raw_logs observed 300
        ≡ some (text, chunks))
      × (length text ≤ 300)
raw_logs_budget_example = raw_logs_budget observed 300 short_logs
