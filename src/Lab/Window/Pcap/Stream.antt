-- ===== src/Lab/Window/Pcap/Stream.antt =====
-- Reading is local: a record that was read is read again from its own bytes, whatever follows, and
-- the fuel of the loop is enough.
use airtrace.Prelude.{
  ℕ, zero, suc, ◌<◌, ◌≡◌, refl, sym, ap, ap₂, ◌∙◌, false, none, some, [], ◌∷◌, ◌++◌, ==_iff, length,
  take, drop, arith, take-append-drop, take-append_self, drop-append_self, length-append,
}
use airtrace.Lab.Window.Pcap.{
  Bytes, Format, Item, Yielded, Next, finished, refused, found, u32, is_invalid, timestamp_of,
  read_record, next_record, read_records, after_round,
}

module _ (format : Format) (snaplen : ℕ) where
  abbrev included : Bytes → ℕ
  included h = u32 format.endian h 8

  abbrev item_of : Bytes → Bytes → Item
  item_of h p = record { timestamp = some (timestamp_of format snaplen h); bytes = h ++ p }

  -- The header and the packet of one valid record.
  pub record IsRecord (h p : Bytes) : Type 0 where
    pub header_length : length h ≡ 16
    pub packet_length : length p ≡ u32 format.endian h 8
    pub valid : is_invalid format snaplen h ≡ false

  read_record-IsRecord :
      (h p rest : Bytes)
      → IsRecord h p
      → read_record format snaplen h (p ++ rest) ≡ found (item_of h p) rest
  unfolding read_record
  read_record-IsRecord h p rest r = rw (
    (==_iff (length h) 16).1 r.header_length,
    r.valid,
    take-append_self (included h) p rest r.packet_length,
    drop-append_self (included h) p rest r.packet_length,
    (==_iff (length p) (included h)).1 r.packet_length,
  )

  next_record-append :
      (h q : Bytes)
      → length h ≡ 16
      → next_record format snaplen (h ++ q) ≡ read_record format snaplen h q
  unfolding next_record
  next_record-append [] q e = absurd (omega arith)
  next_record-append (b ∷ h) q e =
      ap₂ (read_record format snaplen) (take-append_self 16 (b ∷ h) q e)
        (drop-append_self 16 (b ∷ h) q e)

  -- A valid record is read from its bytes, whatever stands behind them.
  pub next_record-IsRecord :
      (h p rest : Bytes)
      → IsRecord h p
      → next_record format snaplen (h ++ (p ++ rest)) ≡ found (item_of h p) rest
  next_record-IsRecord h p rest r =
      next_record-append h (p ++ rest) r.header_length ∙ read_record-IsRecord h p rest r

  -- The header and packet of a record that was found.
  pub record Split (stream : Bytes) (item : Item) (rest : Bytes) : Type 0 where
    pub header : Bytes
    pub packet : Bytes
    pub is_record : IsRecord header packet
    pub item_eq : item ≡ item_of header packet
    pub stream_eq : stream ≡ header ++ (packet ++ rest)

  read_record-found :
      (h q : Bytes) (item : Item) (rest : Bytes)
      → read_record format snaplen h q ≡ found item rest
      → (length h ≡ 16)
        × (is_invalid format snaplen h ≡ false)
        × (length (take (included h) q) ≡ included h)
        × (item ≡ item_of h (take (included h) q))
        × (rest ≡ drop (included h) q)
  unfolding read_record
  read_record-found h q item rest e = ground arith

  -- Only valid records are found, and no byte of the stream is lost.
  pub next_record-Split :
      (stream : Bytes) (item : Item) (rest : Bytes)
      → next_record format snaplen stream ≡ found item rest
      → Split stream item rest
  unfolding next_record
  next_record-Split [] item rest e = cc
  next_record-Split (b ∷ bs) item rest e =
      let h = take 16 (b ∷ bs) in
      let q = drop 16 (b ∷ bs) in
      let (full, fine, whole, item_eq, rest_eq) = read_record-found h q item rest e in
      record {
        header = h;
        packet = take (included h) q;
        is_record = record { header_length = full; packet_length = whole; valid = fine };
        item_eq = item_eq;
        stream_eq =
            sym (take-append-drop 16 (b ∷ bs))
            ∙ ap (◌++◌ h) (
                sym (take-append-drop (included h) q)
                ∙ ap (◌++◌ (take (included h) q)) (sym rest_eq));
      }

  length-Split :
      {stream : Bytes} {item : Item} {rest : Bytes}
      → Split stream item rest
      → length rest < length stream
  length-Split {rest = rest} s = omega (
    arith,
    ap length s.stream_eq,
    s.is_record.header_length,
    length-append s.header (s.packet ++ rest),
    length-append s.packet rest,
  )

  after_round-same :
      (f g : Bytes → Yielded) (n : Next)
      → ((item : Item) (rest : Bytes) → n ≡ found item rest → f rest ≡ g rest)
      → after_round f n ≡ after_round g n
  unfolding after_round
  after_round-same f g finished same = refl
  after_round-same f g (refused x) same = refl
  after_round-same f g (found item rest) same = rw (same item rest refl)

  -- Above the number of bytes the fuel does not matter: the loop ends by its own tests.
  pub read_records-fuel :
      (fuel more : ℕ) (stream : Bytes)
      → length stream < fuel
      → length stream < more
      → read_records format snaplen fuel stream ≡ read_records format snaplen more stream
  unfolding read_records
  read_records-fuel zero more stream h k = absurd (omega arith)
  read_records-fuel (suc fuel) zero stream h k = absurd (omega arith)
  read_records-fuel (suc fuel) (suc more) stream h k =
      after_round-same _ _ (next_record format snaplen stream) λ item rest e.
        let shorter = length-Split (next_record-Split stream item rest e) in
        read_records-fuel fuel more rest (omega arith) (omega arith)

  pub read_records-nil :
      (fuel : ℕ) → read_records format snaplen fuel [] ≡ record { items = []; error = none }
  unfolding read_records after_round next_record
  read_records-nil zero = refl
  read_records-nil (suc fuel) = refl

  -- One valid record in front is read first.
  pub read_records-found :
      (fuel : ℕ) (stream : Bytes) (item : Item) (rest : Bytes)
      → next_record format snaplen stream ≡ found item rest
      → read_records format snaplen (suc fuel) stream ≡ record {
        items = item ∷ (read_records format snaplen fuel rest).items;
        error = (read_records format snaplen fuel rest).error;
      }
  unfolding read_records after_round
  read_records-found fuel stream item rest e = rw e
