-- ===== src/Lab/Window/Pcap.antt =====
-- `pcap_records` and `trim_capture` of lab/window.py, over the bytes of the files.
pub mod Stream
pub mod Reread
pub mod Trim
mod Examples
use airtrace.Prelude.{
  ℕ, zero, suc, ◌+◌, ◌*◌, Bool, true, false, Option, none, some, List, [], ◌∷◌, ◌++◌, ◌==◌, ◌&&◌,
  ◌||◌, not, ltb, leb, length, take, drop, if◌then◌else◌,
}
use airtrace.Lab.Window.Timestamp.{billion}

abbrev pub Bytes : Type 0
Bytes = List ℕ

pub data Endian : Type 0 where
  little big : Endian

pub record Format : Type 0 where
  pub endian : Endian
  pub multiplier : ℕ

pub data PcapError : Type 0 where
  incomplete_header unsupported_header partial_record invalid_record partial_packet : PcapError

-- `PCAP_FORMATS.get(header[:4])`
unfoldable pub pcap_format : Bytes → Option Format
pcap_format (a ∷ b ∷ c ∷ d ∷ _) =
    if a == 0xd4 && b == 0xc3 && c == 0xb2 && d == 0xa1
    then some (record { endian = little; multiplier = 1000 })
    else if a == 0xa1 && b == 0xb2 && c == 0xc3 && d == 0xd4
    then some (record { endian = big; multiplier = 1000 })
    else if a == 0x4d && b == 0x3c && c == 0xb2 && d == 0xa1
    then some (record { endian = little; multiplier = 1 })
    else if a == 0xa1 && b == 0xb2 && c == 0x3c && d == 0x4d
    then some (record { endian = big; multiplier = 1 })
    else none
pcap_format _ = none

byte_at : Bytes → ℕ → ℕ
byte_at [] i = 0
byte_at (b ∷ bs) zero = b
byte_at (b ∷ bs) (suc i) = byte_at bs i

-- `struct.unpack` of an "H" and of an "I" at an offset.
unfoldable pub u16 : Endian → Bytes → ℕ → ℕ
unfolding byte_at
u16 little bs i = byte_at bs i + 256 * byte_at bs (suc i)
u16 big bs i = 256 * byte_at bs i + byte_at bs (suc i)

unfoldable pub u32 : Endian → Bytes → ℕ → ℕ
unfolding u16
u32 little bs i = u16 little bs i + 65536 * u16 little bs (suc (suc i))
u32 big bs i = 65536 * u16 big bs i + u16 big bs (suc (suc i))

-- What the generator yields: the header without a timestamp, then each record with its own.
pub record Item : Type 0 where
  pub timestamp : Option ℕ
  pub bytes : Bytes

-- The items yielded before the end of the file, or before the error that is raised.
pub record Yielded : Type 0 where
  pub items : List Item
  pub error : Option PcapError

-- One round of the loop.
pub data Next : Type 0 where
  finished : Next
  refused : PcapError → Next
  found : Item → Bytes → Next

unfoldable pub after_round : (Bytes → Yielded) → Next → Yielded
after_round later finished = record { items = []; error = none }
after_round later (refused e) = record { items = []; error = some e }
after_round later (found item rest) = record {
  items = item ∷ (later rest).items;
  error = (later rest).error;
}

module _ (format : Format) (snaplen : ℕ) where
  -- `fraction * multiplier >= 1_000_000_000 or included > snaplen or ...`
  unfoldable pub is_invalid : Bytes → Bool
  is_invalid record_header =
      let fraction = u32 format.endian record_header 4 in
      let included = u32 format.endian record_header 8 in
      let original = u32 format.endian record_header 12 in
      leb billion (fraction * format.multiplier)
      || ltb snaplen included
      || ltb original included
      || ltb 1048576 included

  unfoldable pub timestamp_of : Bytes → ℕ
  timestamp_of record_header =
      u32 format.endian record_header 0 * billion
      + u32 format.endian record_header 4 * format.multiplier

  -- The record header and what is left of the stream behind it.
  unfoldable pub read_record : Bytes → Bytes → Next
  read_record record_header behind =
      let included = u32 format.endian record_header 8 in
      let packet = take included behind in
      if not (length record_header == 16)
      then refused partial_record
      else if is_invalid record_header
      then refused invalid_record
      else if not (length packet == included)
      then refused partial_packet
      else found
          (record {
            timestamp = some (timestamp_of record_header);
            bytes = record_header ++ packet;
          })
          (drop included behind)

  unfoldable pub next_record : Bytes → Next
  next_record [] = finished
  next_record (b ∷ bs) = read_record (take 16 (b ∷ bs)) (drop 16 (b ∷ bs))

  -- `while True`, on fuel above the number of bytes left: each round reads at least 16.
  unfoldable pub read_records : ℕ → Bytes → Yielded
  read_records zero stream = record { items = []; error = none }
  read_records (suc fuel) stream = after_round (read_records fuel) (next_record stream)

-- The checks of the header, and the loop behind it.
read_format : Bytes → Bytes → Format → Yielded
read_format header rest format =
    let major = u16 format.endian header 4 in
    let minor = u16 format.endian header 6 in
    let snaplen = u32 format.endian header 16 in
    let later = read_records format snaplen (suc (length rest)) rest in
    if not (major == 2 && minor == 4) || ltb snaplen 1
    then record { items = []; error = some unsupported_header }
    else record {
      items = record { timestamp = none; bytes = header } ∷ later.items;
      error = later.error;
    }

-- The 24 bytes of the header and the rest of the file.
read_capture : Bytes → Bytes → Yielded
read_capture header rest =
    if not (length header == 24)
    then record { items = []; error = some incomplete_header }
    else elim (pcap_format header) [
      | none ↦ record { items = []; error = some incomplete_header }
      | some format ↦ read_format header rest format
    ]

unfoldable pub pcap_records : Bytes → Yielded
unfolding read_capture read_format
pcap_records stream = read_capture (take 24 stream) (drop 24 stream)

-- `timestamp is None or timestamp <= end["unix_ns"]`
unfoldable pub in_window : ℕ → Item → Bool
in_window end_ns item = elim item.timestamp [ none ↦ true | some t ↦ leb t end_ns ]

pub record Trimmed : Type 0 where
  pub output : Bytes
  pub frames : ℕ
  pub removed_frames : ℕ

unfoldable pub is_frame : Item → ℕ
is_frame item = elim item.timestamp [ none ↦ 0 | some t ↦ 1 ]

-- One round of the `for` loop of `trim_capture`, and the loop.
trim_item : ℕ → Trimmed → Item → Trimmed
trim_item end_ns s item =
    if in_window end_ns item
    then record s { output = s.output ++ item.bytes; frames = s.frames + is_frame item }
    else record s { removed_frames = s.removed_frames + 1 }

unfoldable pub trim_items : ℕ → Trimmed → List Item → Trimmed
unfolding trim_item
trim_items end_ns s [] = s
trim_items end_ns s (item ∷ items) = trim_items end_ns (trim_item end_ns s item) items

-- What `trim_capture` leaves: the destination untouched, or written as far as the reader came, with
-- the reader's error, which is raised in place of the counts.
pub data TrimResult : Type 0 where
  same_path : TrimResult
  written : Trimmed → Option PcapError → TrimResult

-- `same` says that the two paths resolve to one file.
unfoldable pub trim_capture : Bool → Bytes → ℕ → TrimResult
trim_capture same raw end_ns =
    let read = pcap_records raw in
    if same
    then same_path
    else written
        (trim_items end_ns (record { output = []; frames = 0; removed_frames = 0 }) read.items)
        read.error
