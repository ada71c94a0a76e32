-- ===== src/Lab/Window/Pcap/Trim.antt =====
-- `trim_capture` against `pcap_records`: the visible capture reads back as the records in the window.
use airtrace.Prelude.{
  ℕ, suc, ◌+◌, ◌≡◌, ◌≢◌, refl, sym, ap, ap₂, ◌∙◌, Bool, false, Option, none, some, List, [], ◌∷◌,
  ◌++◌, ◌==◌, ==_iff, ◌&&◌, ◌||◌, not, ltb, length, take, drop, Bool-cases, inl, inr, arith,
  append_assoc, append-nil, take-append_self, drop-append_self, sum_by,
}
use airtrace.Lab.Window.Pcap.{
  Bytes, Format, Item, Yielded, PcapError, u16, u32, pcap_format, read_records, read_capture,
  read_format, pcap_records, in_window, Trimmed, trim_item, trim_items, written, trim_capture,
  is_frame,
}
use airtrace.Lab.Window.Pcap.Reread.{bytes_of, visible, reread}

-- Whether `read_format` refuses the header.
abbrev bad_header : Bytes → Format → Bool
bad_header header format =
    not (u16 format.endian header 4 == 2 && u16 format.endian header 6 == 4)
    || ltb (u32 format.endian header 16) 1

abbrev header_item : Bytes → Item
header_item header = record { timestamp = none; bytes = header }

-- An accepted header, and the loop that reads behind it.
record IsOpened (raw : Bytes) : Type 0 where
  header : Bytes
  behind : Bytes
  format : Format
  complete : length header ≡ 24
  known : pcap_format header ≡ some format
  accepted : bad_header header format ≡ false
  read : pcap_records raw ≡ record {
    items =
        header_item header
        ∷ (read_records format (u32 format.endian header 16) (suc (length behind)) behind).items;
    error = (read_records format (u32 format.endian header 16) (suc (length behind)) behind).error;
  }

read_capture-header :
    (header behind : Bytes) (format : Format)
    → length header ≡ 24
    → pcap_format header ≡ some format
    → bad_header header format ≡ false
    → read_capture header behind ≡ record {
      items =
          header_item header
          ∷ (read_records format (u32 format.endian header 16) (suc (length behind)) behind).items;
      error =
          (read_records format (u32 format.endian header 16) (suc (length behind)) behind).error;
    }
unfolding read_capture read_format
read_capture-header header behind format n k a = rw ((==_iff (length header) 24).1 n, k, a)

pcap_records-header :
    (header behind : Bytes)
    → length header ≡ 24
    → pcap_records (header ++ behind) ≡ read_capture header behind
unfolding pcap_records
pcap_records-header header behind n =
    ap₂ read_capture (take-append_self 24 header behind n) (drop-append_self 24 header behind n)

accepted_parts :
    (header behind : Bytes)
    → (read_capture header behind).items ≢ []
    → (format : Format) × (length header ≡ 24)
      × (pcap_format header ≡ some format)
      × (bad_header header format ≡ false)
unfolding read_capture read_format
accepted_parts header behind h = go (pcap_format header) refl
  where
    go :
        (f : Option Format)
        → pcap_format header ≡ f
        → (format : Format) × (length header ≡ 24)
          × (pcap_format header ≡ some format)
          × (bad_header header format ≡ false)
    go none k = absurd (h (ground arith))
    go (some format) k = elim (Bool-cases (length header == 24)) [
      | inr short ↦ absurd (h (ground arith))
      | inl full ↦ elim (Bool-cases (bad_header header format)) [
        | inl bad ↦ absurd (h (rw (full, k, bad)))
        | inr fine ↦ (format, (==_iff _ 24).0 full, k, fine)
      ]
    ]

opened : (raw : Bytes) → (pcap_records raw).items ≢ [] → IsOpened raw
unfolding pcap_records
opened raw h =
    let (format, n, k, a) = accepted_parts (take 24 raw) (drop 24 raw) h in
    record {
      header = take 24 raw;
      behind = drop 24 raw;
      format = format;
      complete = n;
      known = k;
      accepted = a;
      read = read_capture-header (take 24 raw) (drop 24 raw) format n k a;
    }

-- Only an item with a timestamp can lie outside the window.
outside_is_frame : (end_ns : ℕ) (i : Item) → in_window end_ns i ≡ false → is_frame i ≡ 1
unfolding in_window is_frame
outside_is_frame end_ns i e = ground arith

-- What one round writes and counts.
trim_item-parts :
    (end_ns : ℕ) (s : Trimmed) (i : Item)
    → ((trim_item end_ns s i).output ≡ s.output ++ bytes_of (visible end_ns (i ∷ [])))
      × ((trim_item end_ns s i).frames ≡ s.frames + sum_by is_frame (visible end_ns (i ∷ [])))
      × ((trim_item end_ns s i).frames + (trim_item end_ns s i).removed_frames
          ≡ s.frames + s.removed_frames + is_frame i)
unfolding trim_item visible bytes_of
trim_item-parts end_ns s i = elim (Bool-cases (in_window end_ns i)) [
  | inl e ↦ rw e (ap (◌++◌ s.output) (sym (append-nil i.bytes)), omega arith, omega arith)
  | inr e ↦
      rw e (sym (append-nil s.output), omega arith, omega (arith, outside_is_frame end_ns i e))
]

visible-cons :
    (end_ns : ℕ) (i : Item) (is : List Item)
    → visible end_ns (i ∷ is) ≡ visible end_ns (i ∷ []) ++ visible end_ns is
unfolding visible
visible-cons end_ns i is = elim (Bool-cases (in_window end_ns i)) [ inl e ↦ rw e | inr e ↦ rw e ]

bytes_of-append : (xs ys : List Item) → bytes_of (xs ++ ys) ≡ bytes_of xs ++ bytes_of ys
unfolding bytes_of
bytes_of-append [] ys = refl
bytes_of-append (x ∷ xs) ys = simp (bytes_of-append xs ys, append_assoc)

sum_by-append :
    (xs ys : List Item) → sum_by is_frame (xs ++ ys) ≡ sum_by is_frame xs + sum_by is_frame ys
sum_by-append [] ys = omega arith
sum_by-append (x ∷ xs) ys = omega (arith, sum_by-append xs ys)

trim_items-output :
    (end_ns : ℕ) (s : Trimmed) (is : List Item)
    → (trim_items end_ns s is).output ≡ s.output ++ bytes_of (visible end_ns is)
unfolding trim_items
trim_items-output end_ns s [] = unfold visible bytes_of in sym (append-nil s.output)
trim_items-output end_ns s (i ∷ is) =
    trim_items-output end_ns (trim_item end_ns s i) is
    ∙ simp (
      (trim_item-parts end_ns s i).0,
      visible-cons end_ns i is,
      bytes_of-append (visible end_ns (i ∷ [])) (visible end_ns is),
      append_assoc,
    )

visible-header :
    (end_ns : ℕ) (header : Bytes) (is : List Item)
    → visible end_ns (header_item header ∷ is) ≡ header_item header ∷ visible end_ns is
unfolding visible in_window
visible-header end_ns header is = refl

trim_capture-written :
    (raw : Bytes) (end_ns : ℕ) (out : Trimmed) (error : Option PcapError)
    → trim_capture false raw end_ns ≡ written out error
    → (out
        ≡ trim_items end_ns
            (record { output = []; frames = 0; removed_frames = 0 })
            (pcap_records raw).items)
      × (error ≡ (pcap_records raw).error)
unfolding trim_capture
trim_capture-written raw end_ns out error e = (cc, cc)

-- A capture that was trimmed reads back, with no error, as its header and exactly those records of
-- the raw capture that lie at or before the cutoff, in their order: also where the raw capture is
-- damaged behind its header, when the reader stops at the damage and the visible file is whole.
pub pcap_records-trim :
    (raw : Bytes) (end_ns : ℕ) (out : Trimmed) (error : Option PcapError)
    → (pcap_records raw).items ≢ []
    → trim_capture false raw end_ns ≡ written out error
    → pcap_records out.output
      ≡ record { items = visible end_ns (pcap_records raw).items; error = none }
unfolding bytes_of
pcap_records-trim raw end_ns out error h e =
    let o = opened raw h in
    let is =
      (read_records o.format (u32 o.format.endian o.header 16) (suc (length o.behind))
        o.behind).items in
    let seen = visible end_ns is in
    let all : visible end_ns (pcap_records raw).items ≡ header_item o.header ∷ seen =
      ap (λ (y : Yielded). visible end_ns y.items) o.read ∙ visible-header end_ns o.header is in
    let output : out.output ≡ o.header ++ bytes_of seen =
      ap (λ (t : Trimmed). t.output) (trim_capture-written raw end_ns out error e).0
      ∙ trim_items-output end_ns _ (pcap_records raw).items
      ∙ ap bytes_of all in
    ap pcap_records output
    ∙ pcap_records-header o.header (bytes_of seen) o.complete
    ∙ read_capture-header o.header (bytes_of seen) o.format o.complete o.known o.accepted
    ∙ rw (
      reread o.format (u32 o.format.endian o.header 16) end_ns (suc (length o.behind)) o.behind,
      all,
    )

trim_items-counts :
    (end_ns : ℕ) (s : Trimmed) (is : List Item)
    → ((trim_items end_ns s is).frames ≡ s.frames + sum_by is_frame (visible end_ns is))
      × ((trim_items end_ns s is).frames + (trim_items end_ns s is).removed_frames
          ≡ s.frames + s.removed_frames + sum_by is_frame is)
unfolding trim_items
trim_items-counts end_ns s [] = unfold visible in (omega arith, omega arith)
trim_items-counts end_ns s (i ∷ is) =
    let (o, f, r) = trim_item-parts end_ns s i in
    let ih = trim_items-counts end_ns (trim_item end_ns s i) is in
    let seen = ap (sum_by is_frame) (visible-cons end_ns i is) in
    let total = sum_by-append (visible end_ns (i ∷ [])) (visible end_ns is) in
    (omega (arith, ih.0, f, seen, total), omega (arith, ih.1, r))

-- The counts that are returned with a written capture: the frames that are visible in it, and with
-- the removed ones every frame that was read. The reader's error is passed on.
pub trim_capture_counts :
    (raw : Bytes) (end_ns : ℕ) (out : Trimmed) (error : Option PcapError)
    → trim_capture false raw end_ns ≡ written out error
    → (out.frames ≡ sum_by is_frame (visible end_ns (pcap_records raw).items))
      × (out.frames + out.removed_frames ≡ sum_by is_frame (pcap_records raw).items)
      × (error ≡ (pcap_records raw).error)
trim_capture_counts raw end_ns out error e =
    let (o, x) = trim_capture-written raw end_ns out error e in
    let (f, r) =
      trim_items-counts end_ns (record { output = []; frames = 0; removed_frames = 0 })
        (pcap_records raw).items in
    (
      ap (λ (t : Trimmed). t.frames) o ∙ omega (arith, f),
      ap (λ (t : Trimmed). t.frames + t.removed_frames) o ∙ omega (arith, r),
      x,
    )
