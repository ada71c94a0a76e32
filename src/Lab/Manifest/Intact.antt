-- ===== src/Lab/Manifest/Intact.antt =====
-- What the verification of lab/manifest.py establishes of a dataset.
use airtrace.Prelude.{
  ℕ, ◌≡◌, refl, ap, ◌∙◌, subst, Bool, true, false, Option, none, some, List, [], ◌∷◌, ◌&&◌, All,
  arith,
}
use airtrace.Text.Base.{Text}
use airtrace.Text.Order.{eq_of_text_eq}
use airtrace.Lab.Dataset.{Split, MetaResult, accepted, refused, validate_meta}
use airtrace.Lab.Dataset.Quarantine.{IsJudged, validate_meta-IsJudged}
use airtrace.Lab.Manifest.{
  File, Bundle, Tree, Details, Entry, Outcome, Manifest, BadDataset, unread, Verdict, fine, bad,
  and_then, given, same_bool, find_file, find_bundle,
}
use airtrace.Lab.Scenarios.{bundle_id}
use airtrace.Lab.Manifest.Check.{
  Identity, identity, validated, load_meta, decoded, read_meta, entry_of, same_details, Place,
  files_of, Paths, check_files, check_contents, verify_entries, verify_read, verify_manifest,
}
use airtrace.Lab.Manifest.Chain.{OfFine, require-OfFine, and_then-OfFine}

validated-IsJudged :
    (d : Details) (r : MetaResult)
    → validate_meta d.meta ≡ r
    → OfFine (λ (x : Details). IsJudged x.meta) (validated d r)
unfolding validated
validated-IsJudged d (accepted m) h = validate_meta-IsJudged d.meta m h
validated-IsJudged d (refused e) h = tt

read_meta-IsJudged :
    (decode : Text → Option Details) (files : List File)
    → OfFine (λ (x : Details). IsJudged x.meta) (read_meta decode files)
unfolding read_meta load_meta
read_meta-IsJudged decode files = of_option (decoded decode (find_file files _))
  where
    of_option : (o : Option Details) → OfFine (λ (x : Details). IsJudged x.meta) (load_meta o)
    of_option none = tt
    of_option (some d) = validated-IsJudged d (validate_meta d.meta) refl

eq_of_same_bool : (a b : Bool) → same_bool a b ≡ true → a ≡ b
unfolding same_bool
eq_of_same_bool a b h = ground arith

first_holds : (a b : Bool) → (a && b) ≡ true → a ≡ true
first_holds true b h = refl
first_holds false b h = cc

given-OfFine :
    {A : Type 0} (o : Option A) (e : BadDataset) → OfFine (λ (a : A). o ≡ some a) (given o e)
unfolding given
given-OfFine none e = tt
given-OfFine (some a) e = refl

module _ (digest : Text → Text) (decode : Text → Option Details) (paths : Paths)
    (bundles : List Bundle) (commit : Text) where
  -- A recorded file is there, with the recorded digest.
  abbrev pub IsUnchanged : List File → Text × Text → Type 0
  IsUnchanged files (name, expected) =
      (n : Text) × (content : Text) × (paths.file_at name ≡ some n)
      × (find_file files n ≡ some content)
      × (digest content ≡ expected)

  -- The files of an entry are unchanged, and its quarantine is the one that its own metadata gives.
  abbrev pub IsIntact : Entry → Type 0
  IsIntact e =
      All (IsUnchanged (files_of (find_bundle bundles e.id))) e.files
      × ((d : Details) × (read_meta decode (files_of (find_bundle bundles e.id)) ≡ fine d)
          × (e.id ≡ bundle_id digest d.label d.seed)
          × (e.quarantined ≡ d.meta.quarantined)
          × (d.commit ≡ commit)
          × IsJudged d.meta)

  check_files-IsUnchanged :
      (files : List File) (dir : Text) (fs : List (Text × Text))
      → OfFine
          (λ (ps : List Place). All (IsUnchanged files) fs)
          (check_files digest decode paths files dir fs)
  unfolding check_files
  check_files-IsUnchanged files dir [] = tt
  check_files-IsUnchanged files dir ((name, expected) ∷ rest) = and_then-OfFine _ _ _ (λ n f.
      and_then-OfFine _ _ _ (λ content g. require-OfFine _ _ _ _ (λ same.
        and_then-OfFine _ _ _ (λ places later. (
          (n, content, found _ _ _ f, found _ _ _ g, eq_of_text_eq _ _ same),
          subst (OfFine (λ (ps : List Place). All (IsUnchanged files) rest)) later
              (check_files-IsUnchanged files dir rest),
        )))))
    where
      found : {A : Type 0} (o : Option A) (e : BadDataset) (a : A) → given o e ≡ fine a → o ≡ some a
      found o e a h = subst (OfFine (λ (x : _). o ≡ some x)) h (given-OfFine o e)

  check_contents-IsUnchanged :
      (e : Entry)
      → OfFine
          (λ (ps : List Place). All (IsUnchanged (files_of (find_bundle bundles e.id))) e.files)
          (check_contents digest decode paths bundles e)
  unfolding check_contents
  check_contents-IsUnchanged e = and_then-OfFine _ _ _ (λ n f.
      require-OfFine _ _ _ _
        (λ s. require-OfFine _ _ _ _ (λ r. check_files-IsUnchanged _ e.id e.files)))

  verify_entries-IsIntact :
      (schedule : List (Split × ℕ)) (es : List Entry) (seen : List Identity)
      → OfFine
          (λ (found : List Place × List Outcome). All IsIntact es)
          (verify_entries digest decode paths schedule bundles commit es seen)
  unfolding verify_entries same_details entry_of
  verify_entries-IsIntact schedule [] seen = tt
  verify_entries-IsIntact schedule (e ∷ es) seen = require-OfFine _ _ _ _ (λ keys.
      require-OfFine _ _ _ _ (λ s. and_then-OfFine _ _ _ (λ places c. and_then-OfFine _ _ _ (λ d r.
        require-OfFine _ _ _ _ (λ i. require-OfFine _ _ _ _ (λ n. require-OfFine _ _ _ _ (λ k.
          require-OfFine _ _ _ _ (λ t. require-OfFine _ _ _ _ (λ m.
            and_then-OfFine _ _ _ (λ later l. (
              (
                subst
                    (OfFine (λ (ps : List Place).
                      All (IsUnchanged (files_of (find_bundle bundles e.id))) e.files))
                    c (check_contents-IsUnchanged e),
                (
                  d,
                  r,
                  eq_of_text_eq _ _ i,
                  eq_of_same_bool _ _ (first_holds _ _ t),
                  eq_of_text_eq _ _ m,
                  subst (OfFine (λ (x : Details). IsJudged x.meta)) r (read_meta-IsJudged decode _),
                ),
              ),
              subst (OfFine (λ (found : List Place × List Outcome). All IsIntact es)) l
                  (verify_entries-IsIntact schedule es (identity d ∷ seen)),
            )))))))))))

-- What a verification gives is the manifest that was read, with its entries intact.
abbrev pub IsVerified :
    (Text → Text) → (Text → Option Details) → Paths → Tree → Option Manifest → Manifest → Type 0
IsVerified digest decode paths tree read m =
    (read ≡ some m) × All (IsIntact digest decode paths tree.bundles m.commit) m.bundles

module _ (digest : Text → Text) (decode : Text → Option Details) (paths : Paths)
    (summary : List Outcome → Text) (parse : Text → Option Manifest) (tree : Tree) where
  verify_read-IsIntact :
      (m : Manifest)
      → OfFine
          (λ (x : Manifest).
            (m ≡ x) × All (IsIntact digest decode paths tree.bundles x.commit) x.bundles)
          (verify_read digest decode paths summary tree m)
  unfolding verify_read
  verify_read-IsIntact m = require-OfFine _ _ _ _ (λ r. and_then-OfFine _ _ _ (λ schedule s.
      and_then-OfFine _ _ _ (λ found p. require-OfFine _ _ _ _ (λ q. require-OfFine _ _ _ _ (λ o.
        require-OfFine _ _ _ _ (λ x. (
          refl,
          subst
              (OfFine (λ (f : List Place × List Outcome).
                All (IsIntact digest decode paths tree.bundles m.commit) m.bundles))
              p
              (verify_entries-IsIntact digest decode paths tree.bundles m.commit schedule m.bundles
                []),
        )))))))

  verify_text-IsIntact :
      (text : Text) (o : Option Manifest)
      → parse text ≡ o
      → OfFine
          (IsVerified digest decode paths tree (parse text))
          (and_then (given o unread) (verify_read digest decode paths summary tree))
  unfolding given and_then
  verify_text-IsIntact text none e = tt
  verify_text-IsIntact text (some m) e =
      of_read (verify_read digest decode paths summary tree m) (verify_read-IsIntact m)
    where
      of_read :
          (v : Verdict Manifest)
          → OfFine
              (λ (x : Manifest).
                (m ≡ x) × All (IsIntact digest decode paths tree.bundles x.commit) x.bundles)
              v
          → OfFine (IsVerified digest decode paths tree (parse text)) v
      of_read (fine x) (same, intact) = (e ∙ ap some same, intact)
      of_read (bad b) k = tt

-- A dataset that passes the verification has every file that its manifest records, with the recorded
-- digest; and for every entry a meta.json that is accepted, that gives the bundle its name, is of the
-- manifest's commit, and from which the entry's quarantine follows. The manifest is the one that was read.
pub verify_manifest-IsIntact :
    (digest : Text → Text) (decode : Text → Option Details) (paths : Paths)
    (summary : List Outcome → Text) (parse : Text → Option Manifest) (tree : Tree) (text : Text)
    (m : Manifest)
    → verify_manifest digest decode paths summary parse tree text ≡ fine m
    → (parse text ≡ some m) × All (IsIntact digest decode paths tree.bundles m.commit) m.bundles
unfolding verify_manifest
verify_manifest-IsIntact digest decode paths summary parse tree text m h =
    subst (OfFine (IsVerified digest decode paths tree (parse text))) h (
      require-OfFine _ _ _ _
        (λ l. verify_text-IsIntact digest decode paths summary parse tree text (parse text) refl))
