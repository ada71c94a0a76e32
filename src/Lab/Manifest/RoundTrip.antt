-- ===== src/Lab/Manifest/RoundTrip.antt =====
-- A manifest that write_manifest of lab/manifest.py gives passes verify_manifest.
use airtrace.Prelude.{
  ℕ, ◌≡◌, refl, ap, sym, subst, ◌∙◌, true, not, Option, none, some, List, [], ◌∷◌, map, All,
  filter_by,
}
use airtrace.Text.Base.{Text}
use airtrace.Text.Order.{text_eq, text_eq_refl}
use airtrace.Lab.Dataset.{Split, seed_schedule}
use airtrace.Lab.Manifest.{
  File, Bundle, Tree, Details, Entry, Outcome, Manifest, no_schedule, fine, given, find_file,
  find_bundle, has_keys, split_of, quarantine_summary,
}
use airtrace.Lab.Scenarios.{bundle_id}
use airtrace.Lab.Manifest.Check.{
  Identity, identity, was_seen, agrees, read_meta, entry_of, write_entries, has_meta,
  write_manifest, required_files, places_of, files_of, Paths, link_free, no_files, check_files,
  check_contents, verify_entries, manifest_for, verify_read, verify_manifest,
}
use airtrace.Lab.Manifest.Chain.{
  split_eq_refl, same_number_refl, both_hold, same_details_refl, same_summary_refl, all_in_refl,
  has_entry_keys_refl, same_ranges_refl, agrees_on_observed_refl, require-holds, and_then-fine,
  given-some, OfFine, require-OfFine, and_then-OfFine,
}

module _ (digest : Text → Text) (decode : Text → Option Details) (paths : Paths) (tree : Tree)
    (commit : Text) where
  -- A directory with the required files, that the paths and the file system find by its names, and whose
  -- metadata is of the commit.
  abbrev pub IsKept : Bundle → Type 0
  IsKept b =
      (paths.bundle_at b.name ≡ some b.name)
      × (find_bundle tree.bundles b.name ≡ some b)
      × (has_meta b ≡ true)
      × (has_keys (map (λ (f : File). (f.name, digest f.content)) b.files) required_files ≡ true)
      × (All
          (λ (f : File).
            (paths.file_at f.name ≡ some f.name) × (find_file b.files f.name ≡ some f.content))
          b.files)
      × ((d : Details) → read_meta decode b.files ≡ fine d → d.commit ≡ commit)

  check_files-found :
      (files : List File) (dir : Text) (fs : List File)
      → All
          (λ (f : File).
            (paths.file_at f.name ≡ some f.name) × (find_file files f.name ≡ some f.content))
          fs
      → check_files digest decode paths files dir
          (map (λ (f : File). (f.name, digest f.content)) fs)
        ≡ fine (map (λ (f : File). (dir, f.name)) fs)
  unfolding check_files
  check_files-found files dir [] h = refl
  check_files-found files dir (f ∷ fs) ((p, q), h) =
      and_then-fine _ f.name _ _ (given-some _ _ _ p) (
        and_then-fine _ f.content _ _ (given-some _ _ _ q) (
          require-holds _ _ _ _ (text_eq_refl (digest f.content))
            (and_then-fine _ _ _ _ (check_files-found files dir fs h) refl)))

  files-kept : (b : Bundle) → IsKept b → files_of (find_bundle tree.bundles b.name) ≡ b.files
  unfolding files_of
  files-kept b k = ap files_of k.1

  check_contents-kept :
      (b : Bundle) (d : Details)
      → IsKept b
      → check_contents digest decode paths tree.bundles (entry_of digest b d)
        ≡ fine (map (λ (f : File). (b.name, f.name)) b.files)
  unfolding check_contents entry_of
  check_contents-kept b d k = and_then-fine _ b.name _ _ (given-some _ _ _ k.0) (
      require-holds _ _ _ _ (text_eq_refl b.name) (
        require-holds _ _ _ _ k.3 (
          ap
            (λ (fs : List File).
              check_files digest decode paths fs b.name
                (map (λ (f : File). (f.name, digest f.content)) b.files))
            (files-kept b k)
          ∙ check_files-found b.files b.name b.files k.4)))

  Passes : List (Split × ℕ) → List Bundle → List Identity → List Entry × List Outcome → Type 0
  Passes schedule bs seen (es, outcomes) =
      verify_entries digest decode paths schedule tree.bundles commit es seen
      ≡ fine (places_of bs, outcomes)

  -- An entry that is written passes, and what is verified after it goes on from the same identities.
  entry-Passes :
      (schedule : List (Split × ℕ)) (b : Bundle) (d : Details) (bs : List Bundle)
      (seen : List Identity) (rest : List Entry × List Outcome)
      → IsKept b
      → read_meta decode b.files ≡ fine d
      → agrees (split_of schedule d.seed) d.split ≡ true
      → text_eq b.name (bundle_id digest d.label d.seed) ≡ true
      → not (was_seen seen (identity d)) ≡ true
      → Passes schedule bs (identity d ∷ seen) rest
      → Passes schedule (b ∷ bs) seen (entry_of digest b d ∷ rest.0, (d.label, d.observed) ∷ rest.1)
  unfolding Passes verify_entries places_of entry_of
  entry-Passes schedule b d bs seen (es, outcomes) k r s o n later =
      require-holds _ _ _ _ has_entry_keys_refl (
        require-holds _ _ _ _ s (
          and_then-fine _ _ _ _ (check_contents-kept b d k) (
            and_then-fine _ d _ _ (ap (read_meta decode) (files-kept b k) ∙ r) (
              require-holds _ _ _ _ o (
                require-holds _ _ _ _ n (
                  require-holds _ _ _ _
                    (both_hold _ _ (same_number_refl d.seed) (split_eq_refl d.split))
                    (require-holds _ _ _ _
                      (same_details_refl digest b (record { name = b.name; files = [] }) d)
                      (require-holds _ _ _ _
                        (subst (λ (c : Text). text_eq c commit ≡ true) (sym (k.5 d r))
                          (text_eq_refl commit))
                        (and_then-fine _ _ _ _ later refl)))))))))

  write_entries-Passes :
      (schedule : List (Split × ℕ)) (bs : List Bundle) (seen : List Identity)
      → All IsKept bs
      → OfFine (Passes schedule bs seen) (write_entries digest decode schedule bs seen)
  unfolding write_entries Passes verify_entries places_of
  write_entries-Passes schedule [] seen k = refl
  write_entries-Passes schedule (b ∷ bs) seen (k, ks) = and_then-OfFine _ _ _ (λ d r.
      require-OfFine _ _ _ _ (λ s. require-OfFine _ _ _ _ (λ o. require-OfFine _ _ _ _ (λ n.
        require-OfFine _ _ _ _ (λ l. and_then-OfFine _ _ _ (λ es e.
          entry-Passes schedule b d bs seen es k r s o n (
            subst (OfFine (Passes schedule bs (identity d ∷ seen))) e
              (write_entries-Passes schedule bs (identity d ∷ seen) ks))))))))

  every_meta : (bs : List Bundle) → All IsKept bs → filter_by has_meta bs ≡ bs
  every_meta [] k = refl
  every_meta (b ∷ bs) (k, ks) = rw k.2 (ap (◌∷◌ b) (every_meta bs ks))

  module _ (summary : List Outcome → Text) (print : Manifest → Text)
      (parse : Text → Option Manifest) (seed_base : ℕ) where
    Verified : Manifest × Text → Type 0
    Verified (m, text) =
        parse text ≡ some m → verify_manifest digest decode paths summary parse tree text ≡ fine m

    verified :
        (schedule : List (Split × ℕ)) (es : List Entry) (outcomes : List Outcome)
        → tree.others ≡ []
        → link_free tree ≡ true
        → given (seed_schedule seed_base 12 none) no_schedule ≡ fine schedule
        → Passes schedule tree.bundles [] (es, outcomes)
        → let m = manifest_for summary seed_base commit (es, outcomes) in Verified (m, print m)
    unfolding Verified verify_manifest verify_read manifest_for Passes no_files
    verified schedule es outcomes nil l s p reads = require-holds _ _ _ _ l (
        and_then-fine _ _ _ _ (given-some _ _ _ reads) (
          require-holds _ _ _ _ same_ranges_refl (
            and_then-fine _ schedule _ _ s (
              and_then-fine _ _ _ _ p (
                require-holds _ _ _ _ (same_summary_refl (quarantine_summary es)) (
                  require-holds _ _ _ _ (agrees_on_observed_refl summary outcomes) (
                    require-holds _ _ _ _
                      (rw nil (
                        both_hold _ _ (all_in_refl (places_of tree.bundles))
                          (all_in_refl (places_of tree.bundles))))
                      refl)))))))

    write_manifest-Verified :
        tree.others ≡ []
        → link_free tree ≡ true
        → All IsKept tree.bundles
        → OfFine Verified (write_manifest digest decode summary print tree seed_base commit)
    unfolding write_manifest
    write_manifest-Verified nil l k = and_then-OfFine _ _ _ (λ schedule s.
        and_then-OfFine _ _ _ (λ rest e. verified schedule rest.0 rest.1 nil l s (
          subst (OfFine (Passes schedule tree.bundles [])) e (
            subst
              (λ (bs : List Bundle).
                OfFine (Passes schedule tree.bundles [])
                  (write_entries digest decode schedule bs []))
              (sym (every_meta tree.bundles k))
              (write_entries-Passes schedule tree.bundles [] k)))))

-- The manifest that is written for a dataset passes its verification on the same files, and is what the
-- verification gives: for any digest and any summary of the observed states, where the manifest
-- is read back from its JSON as it was, the files are those of the bundles, none is a link, every
-- bundle has the required files, names resolve to what they name, and the metadata is of the manifest's
-- commit.
pub verify_manifest-write :
    (digest : Text → Text) (decode : Text → Option Details) (paths : Paths)
    (summary : List Outcome → Text) (print : Manifest → Text) (parse : Text → Option Manifest)
    (tree : Tree) (commit : Text) (seed_base : ℕ) (m : Manifest) (text : Text)
    → tree.others ≡ []
    → link_free tree ≡ true
    → All (IsKept digest decode paths tree commit) tree.bundles
    → write_manifest digest decode summary print tree seed_base commit ≡ fine (m, text)
    → parse text ≡ some m
    → verify_manifest digest decode paths summary parse tree text ≡ fine m
unfolding Verified
verify_manifest-write digest decode paths summary print parse tree commit seed_base m text nil l k w
      reads =
    subst (OfFine (Verified digest decode paths tree commit summary print parse seed_base)) w
      (write_manifest-Verified digest decode paths tree commit summary print parse seed_base nil l
        k)
      reads
