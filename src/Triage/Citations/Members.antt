-- ===== src/Triage/Citations/Members.antt =====
-- Where the members of a frame stand in its rendering, and the spans of triage/citations.py.
use airtrace.Prelude.{
  ℕ, ◌+◌, ◌≤◌, ◌≡◌, refl, ap, ap₂, sym, ◌∙◌, true, List, [], ◌∷◌, ◌++◌, ◌&&◌, leb, length,
  length-append, take-append_self, drop, arith, Bool-cases, inl, inr,
}
use airtrace.Text.Base.{Text, starts_with}
use airtrace.Json.{Fields, end, field, sort_fields}
use airtrace.Json.Members.{member_texts, led, trailed, dumps-single, dumps-at}
use airtrace.Triage.Data.{render_frame}
use airtrace.Triage.Schema.{strip_ends, members}
use airtrace.Triage.Citations.{spans, covers}

strip_ends-braces : (m : Text) → strip_ends (123 ∷ (m ++ 125 ∷ [])) ≡ m
unfolding strip_ends
strip_ends-braces m = take-append_self _ m (125 ∷ []) (omega (arith, length-append m (125 ∷ [])))

members_lem : (fs : Fields) → members fs ≡ member_texts fs
unfolding members
members_lem end = refl
members_lem (field k v fs) =
    ap₂ ◌∷◌ (ap strip_ends (dumps-single k v) ∙ strip_ends-braces _) (members_lem fs)

-- A frame is rendered as its members, each behind its separator.
pub render_frame-at :
    (fields : Fields) (as_ : List Text) (m : Text) (bs : List Text)
    → members (sort_fields fields) ≡ as_ ++ m ∷ bs
    → render_frame fields ≡ (123 ∷ led as_) ++ (m ++ (trailed bs ++ 125 ∷ []))
unfolding render_frame
render_frame-at fields as_ m bs e =
    dumps-at fields as_ m bs (sym (members_lem (sort_fields fields)) ∙ e)

-- One of the members lies between two positions, the first of them beginning at `position`.
abbrev pub Inside : ℕ → ℕ → ℕ → List Text → Type 0
Inside start stop position ms =
    (as_ : List Text) × (m : Text) × (bs : List Text) × (ms ≡ as_ ++ m ∷ bs)
    × (start ≤ position + length (led as_))
    × (position + length (led as_) + length m ≤ stop)

pub covers-Inside :
    (start stop position : ℕ) (ms : List Text)
    → covers start stop (spans position ms) ≡ true
    → Inside start stop position ms
unfolding covers spans
covers-Inside start stop position [] h = cc
covers-Inside start stop position (m ∷ ms) h =
    elim (Bool-cases (leb start position && leb (position + length m) stop)) [
      | inl now ↦ ([], m, ms, refl, ground arith, ground arith)
      | inr later ↦
          let (as_, n, bs, e, low, high) =
            covers-Inside start stop (position + length m + 2) ms (ground arith) in
          (
            m ∷ as_,
            n,
            bs,
            ap (◌∷◌ m) e,
            omega (arith, low, length-append m (44 ∷ 32 ∷ led as_)),
            omega (arith, high, length-append m (44 ∷ 32 ∷ led as_)),
          )
    ]

pub Inside-covers :
    (start stop position : ℕ) (as_ : List Text) (m : Text) (bs : List Text)
    → start ≤ position + length (led as_)
    → position + length (led as_) + length m ≤ stop
    → covers start stop (spans position (as_ ++ m ∷ bs)) ≡ true
unfolding covers spans
Inside-covers start stop position [] m bs low high = ground arith
Inside-covers start stop position (a ∷ as_) m bs low high =
    let rest =
      Inside-covers start stop (position + length a + 2) as_ m bs
        (omega (arith, low, length-append a (44 ∷ 32 ∷ led as_)))
        (omega (arith, high, length-append a (44 ∷ 32 ∷ led as_))) in
    ground (arith, rest)

-- A text that begins with another one.
pub starts_with-parts : (q t : Text) → starts_with q t ≡ true → t ≡ q ++ drop (length q) t
unfolding starts_with
starts_with-parts [] t h = refl
starts_with-parts (p ∷ ps) [] h = cc
starts_with-parts (p ∷ ps) (c ∷ cs) h =
    let same : c ≡ p = ground (arith, h) in
    ap₂ ◌∷◌ same (starts_with-parts ps cs (ground (arith, h)))

pub starts_with-append : (q t : Text) → starts_with q (q ++ t) ≡ true
unfolding starts_with
starts_with-append [] t = refl
starts_with-append (p ∷ ps) t = let rest = starts_with-append ps t in ground (arith, rest)

-- Of two ways to cut a text, the longer front extends the shorter one.
pub longer_front :
    (a b c d : Text)
    → a ++ b ≡ c ++ d
    → length c ≤ length a
    → (l : Text) × (a ≡ c ++ l) × (l ++ b ≡ d)
longer_front a b [] d e h = (a, refl, e)
longer_front [] b (x ∷ c) d e h = absurd (omega (arith, h))
longer_front (y ∷ a) b (x ∷ c) d e h =
    let first : y ≡ x = cc in
    let tails : a ++ b ≡ c ++ d = cc in
    let (l, f, g) = longer_front a b c d tails (omega (arith, h)) in (l, ap₂ ◌∷◌ first f, g)
