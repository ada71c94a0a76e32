-- ===== src/Lab/Window/Pcap/Examples.antt =====
-- A little-endian microsecond capture with three records, the last one cut short.
use airtrace.Prelude.{ℕ, ◌+◌, ◌≡◌, ◌≢◌, refl, false, none, some, [], ◌∷◌, ◌++◌, sum_by}
use airtrace.Lab.Window.Pcap.{
  Bytes, partial_packet, Trimmed, written, pcap_format, u16, u32, is_invalid, timestamp_of,
  read_record, next_record, after_round, read_records, pcap_records, in_window, is_frame,
  trim_items, trim_capture,
}
use airtrace.Lab.Window.Pcap.Reread.{visible}
use airtrace.Lab.Window.Pcap.Trim.{pcap_records-trim, trim_capture_counts}

abbrev capture_header : Bytes
capture_header =
    0xd4 ∷ 0xc3 ∷ 0xb2 ∷ 0xa1 ∷ 2 ∷ 0 ∷ 4 ∷ 0 ∷ 0 ∷ 0 ∷ 0 ∷ 0 ∷ 0 ∷ 0 ∷ 0 ∷ 0 ∷ 255 ∷ 255 ∷ 0 ∷ 0
    ∷ 105 ∷ 0 ∷ 0 ∷ 0 ∷ []

-- Seconds, microseconds, and a packet of one byte.
abbrev packet_at : ℕ → ℕ → Bytes
packet_at seconds micros =
    seconds ∷ 0 ∷ 0 ∷ 0 ∷ micros ∷ 0 ∷ 0 ∷ 0 ∷ 1 ∷ 0 ∷ 0 ∷ 0 ∷ 1 ∷ 0 ∷ 0 ∷ 0 ∷ 170 ∷ []

abbrev damaged : Bytes
damaged =
    capture_header
    ++ packet_at 5 7
    ++ packet_at 9 0
    ++ 6 ∷ 0 ∷ 0 ∷ 0 ∷ 0 ∷ 0 ∷ 0 ∷ 0 ∷ 2 ∷ 0 ∷ 0 ∷ 0 ∷ 2 ∷ 0 ∷ 0 ∷ 0 ∷ 1 ∷ []

abbrev trimmed : Trimmed
trimmed = record { output = capture_header ++ packet_at 5 7; frames = 1; removed_frames = 1 }

runs : Unit {0}
unfolding trim_capture trim_items pcap_records read_records after_round next_record read_record
    is_invalid timestamp_of u32 u16 pcap_format in_window is_frame
runs = tt

trim_runs : trim_capture false damaged 6000000000 ≡ written trimmed (some partial_packet)
unfolding runs
trim_runs = refl

items_of : (pcap_records damaged).items ≢ []
unfolding runs
items_of e = cc e

pcap_records-trim_example :
    pcap_records trimmed.output
    ≡ record { items = visible 6000000000 (pcap_records damaged).items; error = none }
pcap_records-trim_example =
    pcap_records-trim damaged 6000000000 trimmed (some partial_packet) items_of trim_runs

trim_capture_counts_example :
    (trimmed.frames ≡ sum_by is_frame (visible 6000000000 (pcap_records damaged).items))
    × (trimmed.frames + trimmed.removed_frames ≡ sum_by is_frame (pcap_records damaged).items)
    × (some partial_packet ≡ (pcap_records damaged).error)
trim_capture_counts_example =
    trim_capture_counts damaged 6000000000 trimmed (some partial_packet) trim_runs
