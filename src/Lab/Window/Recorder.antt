-- ===== src/Lab/Window/Recorder.antt =====
-- `LogRecorder` of lab/window.py: the records of one daemon pipe, and their snapshot at a cutoff.
-- The thread, its lock and the raw file are not modelled: a state is what the lock protects.
pub mod Cutoff
mod Examples
use airtrace.Prelude.{
  ℕ, ◌+◌, ◌-◌, Bool, true, false, Option, none, some, List, [], ◌∷◌, ◌++◌, ◌||◌, ltb, length, map,
  not, pick, range, filter_by, if◌then◌else◌,
}
use airtrace.Text.Base.{Text, join, splitlines_keep}
use airtrace.Lab.Scrub.{retained_control_line_indexes}
use airtrace.Lab.Window.Timestamp.{daemon_timestamp_ns}

-- `clock_mark()`, without the wall time, which is `unix_ns` once more.
pub record Mark : Type 0 where
  pub unix_ns : ℕ
  pub monotonic_ns : ℕ

pub record Received : Type 0 where
  pub line : Text
  pub mark : Mark

-- `self.error` is set when the reading thread failed.
pub record LogRecorder : Type 0 where
  pub records : List Received
  pub error : Option Text

-- One round of `_read`: the decoded text of one `readline`, under one mark.
unfoldable pub receive : LogRecorder → Mark → Text → LogRecorder
receive r mark text = record r {
  records = r.records ++ map (λ l. record { line = l; mark = mark }) (splitlines_keep text);
}

-- What `snapshot` writes and returns.
pub record FrozenLog : Type 0 where
  pub text : Text
  pub sha256 : Text
  pub line_count : ℕ
  pub lines : List Mark
  pub removed_control_lines : ℕ
  pub omitted_after_cutoff : ℕ

pub data SnapshotResult : Type 0 where
  recording_failed : Text → SnapshotResult
  taken : FrozenLog → SnapshotResult

-- The digits of Unicode, and the digest of a text that is written as UTF-8.
module _ (decimal : ℕ → Option ℕ) (sha256 : Text → Text) where
  -- `embedded is not None and embedded > end["unix_ns"]`
  unfoldable pub embedded_after : Mark → Text → Bool
  embedded_after end line = elim (daemon_timestamp_ns decimal line) [
    | none ↦ false
    | some t ↦ ltb end.unix_ns t
  ]

  unfoldable pub is_eligible : Mark → Received → Bool
  unfolding embedded_after
  is_eligible end r =
      if ltb end.unix_ns r.mark.unix_ns || ltb end.monotonic_ns r.mark.monotonic_ns
      then false
      else not (embedded_after end r.line)

  -- `kept = [eligible[index] for index in indexes]`
  pub kept_records : Bool → List Received → List Received
  kept_records scrub eligible = pick eligible (
      if scrub
      then retained_control_line_indexes (map (λ r. r.line) eligible)
      else range 0 (length eligible))

  unfoldable pub snapshot : LogRecorder → Mark → Bool → SnapshotResult
  unfolding kept_records
  snapshot recorder end scrub =
      let eligible = filter_by (is_eligible end) recorder.records in
      let kept = kept_records scrub eligible in
      let text = join (map (λ r. r.line) kept) in
      elim recorder.error [
        | some e ↦ recording_failed e
        | none ↦ taken (record {
          text = text;
          sha256 = sha256 text;
          line_count = length kept;
          lines = map (λ r. r.mark) kept;
          removed_control_lines = length eligible - length kept;
          omitted_after_cutoff = length recorder.records - length eligible;
        })
      ]
