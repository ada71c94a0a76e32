-- ===== src/Lab/Verify/Acknowledged.antt =====
-- The order of a completion and of the deauthentication, in lab/verify.py.
use airtrace.Prelude.{
  ◌≡◌, ◌↔◌, refl, ap, sym, subst, ◌∙◌, Bool, true, false, List, [], ◌∷◌, ◌++◌, ◌||◌, All,
  Bool-cases, inl, inr,
}
use airtrace.Lab.Run.State.{Entry}
use airtrace.Lab.Verify.{is_completion, is_acknowledgement, acknowledged}

-- Whether some record shows a completion.
unfoldable pub has_completion : List Entry → Bool
has_completion [] = false
has_completion (e ∷ es) = is_completion e || has_completion es

-- The first acknowledgement stands behind a completion, or shows one itself.
abbrev pub ComesAfter : Bool → List Entry → Type 0
ComesAfter seen records =
    (before : List Entry) × (ack : Entry) × (after : List Entry) × (records ≡ before ++ ack ∷ after)
    × All (λ (e : Entry). is_acknowledgement e ≡ false) before
    × (is_acknowledgement ack ≡ true)
    × ((seen || has_completion (before ++ ack ∷ [])) ≡ true)

or_assoc : (a b c : Bool) → (a || (b || c)) ≡ ((a || b) || c)
or_assoc true b c = refl
or_assoc false b c = refl

or_false : (b : Bool) → (b || false) ≡ b
or_false true = refl
or_false false = refl

finds : (seen : Bool) (es : List Entry) → acknowledged seen es ≡ true → ComesAfter seen es
unfolding acknowledged has_completion
finds seen [] h = cc
finds seen (e ∷ es) h = elim (Bool-cases (is_acknowledgement e)) [
  | inl a ↦ ([], e, es, refl, tt, a, ap (◌||◌ seen) (or_false (is_completion e)) ∙ (rw a at h))
  | inr a ↦
      let (before, ack, after, same, quiet, is, some_before) =
        finds (seen || is_completion e) es (rw a at h) in
      (
        e ∷ before,
        ack,
        after,
        ap (◌∷◌ e) same,
        (a, quiet),
        is,
        or_assoc seen (is_completion e) (has_completion (before ++ ack ∷ [])) ∙ some_before,
      )
]

found : (seen : Bool) (es : List Entry) → ComesAfter seen es → acknowledged seen es ≡ true
unfolding acknowledged has_completion
found seen es (before, ack, after, same, quiet, is, some_before) =
    subst (λ (l : List Entry). acknowledged seen l ≡ true) (sym same)
      (from_split seen before ack after quiet is some_before)
  where
    from_split :
        (s : Bool) (bs : List Entry) (a : Entry) (rest : List Entry)
        → All (λ (e : Entry). is_acknowledgement e ≡ false) bs
        → is_acknowledgement a ≡ true
        → (s || has_completion (bs ++ a ∷ [])) ≡ true
        → acknowledged s (bs ++ a ∷ rest) ≡ true
    from_split s [] a rest q i c = rw i (ap (◌||◌ s) (sym (or_false (is_completion a))) ∙ c)
    from_split s (b ∷ bs) a rest (q, qs) i c = rw q (
        from_split (s || is_completion b) bs a rest qs i
          (sym (or_assoc s (is_completion b) (has_completion (bs ++ a ∷ []))) ∙ c))

-- The check of a deauthentication passes exactly where, among the records, no acknowledgement stands
-- before the first one and a completion stands before it or is shown by it.
pub acknowledged-ComesAfter :
    (records : List Entry) → (acknowledged false records ≡ true) ↔ ComesAfter false records
acknowledged-ComesAfter records = (finds false records, found false records)
