-- ===== src/Lab/Window/Recorder/Cutoff.antt =====
-- What a snapshot freezes: received lines inside the window, in their order, each with its mark.
use airtrace.Prelude.{
  ℕ, zero, suc, ◌+◌, ◌-◌, ◌≤◌, ◌<◌, ◌≡◌, refl, ap, subst, ◌∙◌, Bool, true, false, Option, some,
  List, [], ◌∷◌, arith, length, map, All, pick, pick-range, filter_by, get_elem?, length-map,
  All-pick, All-filter_by, length-filter_by-le, All-map, All-weaken,
}
use airtrace.Text.Base.{Text, join}
use airtrace.Lab.Scrub.{control_line, line_at, retained_control_line_indexes}
use airtrace.Lab.Scrub.Order.{Ascends, retained_control_line_indexes-Ascends}
use airtrace.Lab.Scrub.Order.{retain}
use airtrace.Lab.Scrub.Split.{lines-retained}
use airtrace.Lab.Scrub.Safety.{retain-no_control, length-retain-le}
use airtrace.Lab.Window.Recorder.{
  Mark, Received, LogRecorder, FrozenLog, taken, embedded_after, is_eligible, kept_records,
  snapshot,
}

abbrev pub line_of : Received → Text
line_of r = r.line

-- Picking entries by indexes in range picks their lines.
line_at-get_elem? :
    (rs : List Received) (i : ℕ)
    → i < length rs
    → (r : Received) × (get_elem? rs i ≡ some r) × (line_at (map line_of rs) i ≡ r.line)
unfolding line_at
line_at-get_elem? [] i h = absurd (omega arith)
line_at-get_elem? (r ∷ rs) zero h = (r, refl, refl)
line_at-get_elem? (r ∷ rs) (suc i) h = line_at-get_elem? rs i (omega arith)

map-pick :
    (rs : List Received) (low : ℕ) (is : List ℕ)
    → Ascends low (length rs) is
    → map line_of (pick rs is) ≡ map (line_at (map line_of rs)) is
map-pick rs low [] a = refl
map-pick rs low (i ∷ is) a =
    let (r, e, l) = line_at-get_elem? rs i a.1 in
    rw (e, l) (ap (◌∷◌ r.line) (map-pick rs (i + 1) is a.2))

module _ (decimal : ℕ → Option ℕ) (sha256 : Text → Text) where
  abbrev pub eligible_of : Mark → LogRecorder → List Received
  eligible_of end r = filter_by (is_eligible decimal sha256 end) r.records

  -- With scrubbing, the lines that stay are those that the rule of lab/scrub.py retains.
  kept_lines :
      (eligible : List Received)
      → map line_of (kept_records decimal sha256 true eligible)
        ≡ retain false (map line_of eligible)
  unfolding kept_records
  kept_lines eligible =
      map-pick eligible 0 _ (
        subst (λ n. Ascends 0 n (retained_control_line_indexes (map line_of eligible)))
          (length-map line_of eligible)
          (retained_control_line_indexes-Ascends (map line_of eligible)))
      ∙ lines-retained (map line_of eligible)

  kept_all : (eligible : List Received) → kept_records decimal sha256 false eligible ≡ eligible
  unfolding kept_records
  kept_all eligible = pick-range eligible

  length-kept-le :
      (scrub : Bool) (eligible : List Received)
      → length (kept_records decimal sha256 scrub eligible) ≤ length eligible
  length-kept-le false eligible = rw kept_all (omega arith)
  length-kept-le true eligible =
      let kept = kept_records decimal sha256 true eligible in
      omega (
        arith,
        length-map line_of kept,
        ap length (kept_lines eligible),
        length-retain-le false (map line_of eligible),
        length-map line_of eligible,
      )

  snapshot-taken :
      (r : LogRecorder) (end : Mark) (scrub : Bool) (out : FrozenLog)
      → snapshot decimal sha256 r end scrub ≡ taken out
      → let eligible = eligible_of end r in
        let kept = kept_records decimal sha256 scrub eligible in
        (out.text ≡ join (map line_of kept))
        × (out.line_count ≡ length kept)
        × (out.lines ≡ map (λ k. k.mark) kept)
        × (out.removed_control_lines ≡ length eligible - length kept)
        × (out.omitted_after_cutoff ≡ length r.records - length eligible)
  unfolding snapshot
  snapshot-taken r end scrub out e = ground arith

  abbrev pub Before : Mark → Mark → Type 0
  Before end m = (m.unix_ns ≤ end.unix_ns) × (m.monotonic_ns ≤ end.monotonic_ns)

  eligible-Before :
      (end : Mark) (k : Received) → is_eligible decimal sha256 end k ≡ true → Before end k.mark
  unfolding is_eligible
  eligible-Before end k e = ground arith

  eligible-early :
      (end : Mark) (k : Received)
      → is_eligible decimal sha256 end k ≡ true
      → embedded_after decimal sha256 end k.line ≡ false
  unfolding is_eligible
  eligible-early end k e = ground arith

  -- Every line that a snapshot keeps was received at or before the cutoff by both clocks, there is
  -- one mark for each kept line, and kept, scrubbed and late lines together are all that was received.
  pub snapshot_accounts :
      (r : LogRecorder) (end : Mark) (scrub : Bool) (out : FrozenLog)
      → snapshot decimal sha256 r end scrub ≡ taken out
      → All (Before end) out.lines
        × (length out.lines ≡ out.line_count)
        × (out.line_count + out.removed_control_lines + out.omitted_after_cutoff ≡ length r.records)
  snapshot_accounts r end scrub out e =
      let (_, n, marks, gone, late) = snapshot-taken r end scrub out e in
      let eligible = eligible_of end r in
      let kept = kept_records decimal sha256 scrub eligible in
      let inside =
        All-weaken _ (λ k. Before end k.mark) (eligible-Before end) eligible
          (All-filter_by (is_eligible decimal sha256 end) r.records) in
      (
        rw marks (
            All-map (Before end) (λ k. k.mark) kept
              (unfold kept_records in All-pick (λ k. Before end k.mark) eligible _ inside)),
        omega (arith, ap length marks, length-map (λ (k : Received). k.mark) kept, n),
        omega (
          arith,
          n,
          gone,
          late,
          length-kept-le scrub eligible,
          length-filter_by-le (is_eligible decimal sha256 end) r.records,
        ),
      )

  -- With scrubbing, the frozen text is the retained part of the eligible lines; none of its lines
  -- holds the control token, and none has a daemon timestamp behind the cutoff.
  pub snapshot_scrubbed :
      (r : LogRecorder) (end : Mark) (out : FrozenLog)
      → snapshot decimal sha256 r end true ≡ taken out
      → (lines : List Text) × (out.text ≡ join lines)
        × (lines ≡ retain false (map line_of (eligible_of end r)))
        × All (λ l. control_line l ≡ false) lines
        × All (λ l. embedded_after decimal sha256 end l ≡ false) lines
  snapshot_scrubbed r end out e =
      let (text, _, _, _, _) = snapshot-taken r end true out e in
      let eligible = eligible_of end r in
      let kept = kept_records decimal sha256 true eligible in
      let early =
        All-weaken _ (λ k. embedded_after decimal sha256 end k.line ≡ false) (eligible-early end)
          eligible (All-filter_by (is_eligible decimal sha256 end) r.records) in
      (
        map line_of kept,
        text,
        kept_lines eligible,
        rw (kept_lines eligible) (retain-no_control false (map line_of eligible)),
        All-map (λ l. embedded_after decimal sha256 end l ≡ false) line_of kept
            (unfold kept_records in
              All-pick (λ k. embedded_after decimal sha256 end k.line ≡ false) eligible _ early),
      )
