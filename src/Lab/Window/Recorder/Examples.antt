-- ===== src/Lab/Window/Recorder/Examples.antt =====
-- A recorder with an event, a control echo, a line with a late daemon timestamp and a late line.
use airtrace.Prelude.{
  ℕ, ◌+◌, ◌-◌, ◌≡◌, refl, Bool, true, false, Option, none, some, List, [], ◌∷◌, All, length, leb,
  ◌&&◌, if◌then◌else◌, map,
}
use Prim.Native.String.{String}
use airtrace.Text.Base.{Text, codes, join, is_blank, is_space}
use airtrace.Lab.Scrub.{control_line, removes, retained_control_line_indexes}
use airtrace.Lab.Scrub.Order.{retain}
use airtrace.Lab.Window.Timestamp.{daemon_timestamp_ns}
use airtrace.Lab.Window.Recorder.{
  Mark, Received, LogRecorder, FrozenLog, taken, embedded_after, is_eligible, kept_records,
  snapshot,
}
use airtrace.Lab.Window.Recorder.Cutoff.{
  Before, eligible_of, line_of, snapshot_accounts, snapshot_scrubbed,
}

abbrev ascii_digit : ℕ → Option ℕ
ascii_digit c = if leb b'0' c && leb c b'9' then some (c - b'0') else none

abbrev plain_digest : Text → Text
plain_digest t = t

abbrev mark_at : ℕ → Mark
mark_at n = record { unix_ns = n; monotonic_ns = n }

abbrev entry : String → ℕ → Received
entry line n = record { line = codes line; mark = mark_at n }

abbrev recorder : LogRecorder
recorder = record {
  records =
      entry "1000000001.5: start " 4
      ∷ entry "CTRL_IFACE STATUS " 5
      ∷ entry "STA joined " 2000000000000000000
      ∷ entry "9000000000: late " 6
      ∷ entry "late receipt" 3000000000000000000
      ∷ [];
  error = none;
}

abbrev cutoff : Mark
cutoff = mark_at 2000000000000000000

abbrev frozen : Bool → ℕ → ℕ → Text → List Mark → FrozenLog
frozen scrub count removed text marks = record {
  text = text;
  sha256 = text;
  line_count = count;
  lines = marks;
  removed_control_lines = removed;
  omitted_after_cutoff = 2;
}

abbrev scrubbed : FrozenLog
scrubbed =
    frozen true 2 1 (codes "1000000001.5: start STA joined ")
      (mark_at 4 ∷ mark_at 2000000000000000000 ∷ [])

abbrev plain : FrozenLog
plain =
    frozen false 3 0 (codes "1000000001.5: start CTRL_IFACE STATUS STA joined ")
      (mark_at 4 ∷ mark_at 5 ∷ mark_at 2000000000000000000 ∷ [])

runs : Unit {0}
unfolding snapshot kept_records is_eligible embedded_after daemon_timestamp_ns join
    retained_control_line_indexes removes control_line is_blank is_space
runs = tt

snapshot_runs : snapshot ascii_digit plain_digest recorder cutoff true ≡ taken scrubbed
unfolding runs
snapshot_runs = refl

plain_runs : snapshot ascii_digit plain_digest recorder cutoff false ≡ taken plain
unfolding runs
plain_runs = refl

snapshot_accounts_example :
    All (Before ascii_digit plain_digest cutoff) scrubbed.lines
    × (length scrubbed.lines ≡ scrubbed.line_count)
    × (scrubbed.line_count + scrubbed.removed_control_lines + scrubbed.omitted_after_cutoff
        ≡ length recorder.records)
snapshot_accounts_example =
    snapshot_accounts ascii_digit plain_digest recorder cutoff true scrubbed snapshot_runs

snapshot_scrubbed_example :
    (lines : List Text) × (scrubbed.text ≡ join lines)
    × (lines ≡ retain false (map line_of (eligible_of ascii_digit plain_digest cutoff recorder)))
    × All (λ l. control_line l ≡ false) lines
    × All (λ l. embedded_after ascii_digit plain_digest cutoff l ≡ false) lines
snapshot_scrubbed_example =
    snapshot_scrubbed ascii_digit plain_digest recorder cutoff scrubbed snapshot_runs
