-- ===== src/Lab/Window/Pcap/Reread.antt =====
-- The records in the window, and reading them again from their bytes.
use airtrace.Prelude.{
  ℕ, zero, suc, ◌≤◌, ◌<◌, ◌≡◌, refl, ap, ◌∙◌, none, some, List, [], ◌∷◌, ◌++◌, length,
  if◌then◌else◌, Bool-cases, inl, inr, arith, append_assoc, length-append, All,
}
use airtrace.Lab.Window.Pcap.{
  Bytes, Format, Item, Yielded, Next, finished, refused, found, timestamp_of, next_record,
  read_records, after_round, in_window,
}
use airtrace.Lab.Window.Pcap.Stream.{
  IsRecord, next_record-IsRecord, next_record-Split, read_records-nil, read_records-found,
}

unfoldable pub bytes_of : List Item → Bytes
bytes_of [] = []
bytes_of (i ∷ is) = i.bytes ++ bytes_of is

-- The items that a cutoff leaves.
unfoldable pub visible : ℕ → List Item → List Item
visible end_ns [] = []
visible end_ns (i ∷ is) =
    let rest = visible end_ns is in if in_window end_ns i then i ∷ rest else rest

module _ (format : Format) (snaplen : ℕ) where
  -- An item as the loop yields it.
  record IsRead (item : Item) : Type 0 where
    header : Bytes
    packet : Bytes
    is_record : IsRecord format snaplen header packet
    item_eq :
        item
        ≡ record { timestamp = some (timestamp_of format snaplen header); bytes = header ++ packet }

  after_round-IsRead :
      (later : Bytes → Yielded) (stream : Bytes) (n : Next)
      → next_record format snaplen stream ≡ n
      → ((rest : Bytes) → All IsRead (later rest).items)
      → All IsRead (after_round later n).items
  unfolding after_round
  after_round-IsRead later stream finished e h = tt
  after_round-IsRead later stream (refused x) e h = tt
  after_round-IsRead later stream (found item rest) e h =
      let s = next_record-Split format snaplen stream item rest e in
      (
        record {
          header = s.header;
          packet = s.packet;
          is_record = s.is_record;
          item_eq = s.item_eq;
        },
        h rest,
      )

  read_records-IsRead :
      (fuel : ℕ) (stream : Bytes) → All IsRead (read_records format snaplen fuel stream).items
  unfolding read_records
  read_records-IsRead zero stream = tt
  read_records-IsRead (suc fuel) stream =
      after_round-IsRead _ stream (next_record format snaplen stream) refl
        (read_records-IsRead fuel)

  visible-IsRead : (end_ns : ℕ) (is : List Item) → All IsRead is → All IsRead (visible end_ns is)
  unfolding visible
  visible-IsRead end_ns [] h = tt
  visible-IsRead end_ns (i ∷ is) h = elim (Bool-cases (in_window end_ns i)) [
    | inl e ↦ rw e (h.0, visible-IsRead end_ns is h.1)
    | inr e ↦ rw e (visible-IsRead end_ns is h.1)
  ]

  next_record-IsRead :
      (i : Item) (rest : Bytes)
      → IsRead i
      → next_record format snaplen (i.bytes ++ rest) ≡ found i rest
  next_record-IsRead i rest r =
      rw r.item_eq
        (rw append_assoc (next_record-IsRecord format snaplen r.header r.packet rest r.is_record))

  -- Records that were read once are read again from their bytes alone.
  read_records-bytes_of :
      (fuel : ℕ) (is : List Item)
      → length is < fuel
      → All IsRead is
      → read_records format snaplen fuel (bytes_of is) ≡ record { items = is; error = none }
  unfolding bytes_of
  read_records-bytes_of zero is h r = absurd (omega arith)
  read_records-bytes_of (suc fuel) [] h r = read_records-nil format snaplen (suc fuel)
  read_records-bytes_of (suc fuel) (i ∷ is) h r =
      read_records-found format snaplen fuel _ i (bytes_of is)
        (next_record-IsRead i (bytes_of is) r.0)
      ∙ ap (λ (y : Yielded). record { items = i ∷ y.items; error = y.error })
          (read_records-bytes_of fuel is (omega arith) r.1)

  length-bytes_of : (is : List Item) → All IsRead is → length is ≤ length (bytes_of is)
  unfolding bytes_of
  length-bytes_of [] r = omega arith
  length-bytes_of (i ∷ is) r = omega (
    arith,
    length-append i.bytes (bytes_of is),
    ap (λ (j : Item). length j.bytes) r.0.item_eq,
    length-append r.0.header r.0.packet,
    r.0.is_record.header_length,
    length-bytes_of is r.1,
  )

  -- `read_records`, as `read_format` calls it, on the visible part of what it read before.
  pub reread :
      (end_ns fuel : ℕ) (stream : Bytes)
      → let is = visible end_ns (read_records format snaplen fuel stream).items in
        read_records format snaplen (suc (length (bytes_of is))) (bytes_of is)
        ≡ record { items = is; error = none }
  reread end_ns fuel stream =
      let is = visible end_ns (read_records format snaplen fuel stream).items in
      let r = visible-IsRead end_ns _ (read_records-IsRead fuel stream) in
      read_records-bytes_of (suc (length (bytes_of is))) is (omega (arith, length-bytes_of is r)) r
