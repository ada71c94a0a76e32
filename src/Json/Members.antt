-- ===== src/Json/Members.antt =====
-- What `json.dumps` prints for an object with sorted keys: its members, one after another.
use airtrace.Prelude.{
  ◌≡◌, refl, ap, sym, ◌∙◌, Bool-cases, inl, inr, true, false, List, [], ◌∷◌, ◌++◌, append-nil,
  append_assoc,
}
use airtrace.Text.Base.{Text, codes}
use airtrace.Text.Order.{text_le}
use airtrace.Json.{
  Json, object, Fields, end, field, quote, insert_field, sort_fields, sort_all, sort_values,
  default_separators, sorted, separated, print, print_fields, dumps,
}

-- The text of one member.
abbrev member_text : Text → Json → Text
member_text k v = quote k ++ (codes ": " ++ print default_separators (sort_all v))

abbrev pub member_texts : Fields → List Text
member_texts end = []
member_texts (field k v fs) = member_text k v ∷ member_texts fs

-- Members in front of another one, each with its separator, and members behind one.
abbrev pub led : List Text → Text
led [] = []
led (m ∷ ms) = m ++ 44 ∷ 32 ∷ led ms

abbrev pub trailed : List Text → Text
trailed [] = []
trailed (m ∷ ms) = 44 ∷ 32 ∷ (m ++ trailed ms)

joined : List Text → Text
joined [] = []
joined (m ∷ ms) = m ++ trailed ms

trailed-joined :
    (as_ : List Text) (m : Text) (bs : List Text)
    → trailed (as_ ++ m ∷ bs) ≡ 44 ∷ 32 ∷ joined (as_ ++ m ∷ bs)
unfolding joined
trailed-joined [] m bs = refl
trailed-joined (a ∷ as_) m bs = refl

joined-split :
    (as_ : List Text) (m : Text) (bs : List Text)
    → joined (as_ ++ m ∷ bs) ≡ led as_ ++ (m ++ trailed bs)
unfolding joined
joined-split [] m bs = refl
joined-split (a ∷ as_) m bs =
    ap (◌++◌ a) (trailed-joined as_ m bs ∙ ap (λ t. 44 ∷ 32 ∷ t) (joined-split as_ m bs))
    ∙ sym (append_assoc a (44 ∷ 32 ∷ led as_) (m ++ trailed bs))

sort_values-insert :
    (k : Text) (v : Json) (fs : Fields)
    → sort_values (insert_field k v fs) ≡ insert_field k (sort_all v) (sort_values fs)
unfolding insert_field sort_values
sort_values-insert k v end = refl
sort_values-insert k v (field j w fs) = elim (Bool-cases (text_le k j)) [
  | inl e ↦ rw e refl
  | inr e ↦ rw e (ap (field j (sort_all w)) (sort_values-insert k v fs))
]

sort_values-sort : (fs : Fields) → sort_values (sort_fields fs) ≡ sort_fields (sort_values fs)
unfolding sort_fields sort_values
sort_values-sort end = refl
sort_values-sort (field k v fs) =
    sort_values-insert k v (sort_fields fs) ∙ ap (insert_field k (sort_all v)) (sort_values-sort fs)

member-then :
    (k : Text) (v : Json) (rest : Text)
    → quote k ++ (codes ": " ++ (print default_separators (sort_all v) ++ rest))
      ≡ member_text k v ++ rest
member-then k v rest =
    ap (◌++◌ (quote k))
      (sym (append_assoc (codes ": ") (print default_separators (sort_all v)) rest))
    ∙ sym (append_assoc (quote k) (codes ": " ++ print default_separators (sort_all v)) rest)

print_fields-trailed :
    (fs : Fields)
    → print_fields default_separators true (sort_values fs) ≡ trailed (member_texts fs)
unfolding print_fields sort_values separated
print_fields-trailed end = refl
print_fields-trailed (field k v fs) =
    ap (λ t. 44 ∷ 32 ∷ t)
      (member-then k v (print_fields default_separators true (sort_values fs))
        ∙ ap (◌++◌ (member_text k v)) (print_fields-trailed fs))

print_fields-joined :
    (fs : Fields)
    → print_fields default_separators false (sort_values fs) ≡ joined (member_texts fs)
unfolding print_fields sort_values separated joined
print_fields-joined end = refl
print_fields-joined (field k v fs) =
    member-then k v (print_fields default_separators true (sort_values fs))
    ∙ ap (◌++◌ (member_text k v)) (print_fields-trailed fs)

-- An object with one member, and an object at one of its members.
pub dumps-single :
    (k : Text) (v : Json)
    → dumps sorted (object (field k v end)) ≡ 123 ∷ (member_text k v ++ 125 ∷ [])
unfolding dumps sort_all sort_values sort_fields insert_field print print_fields separated
dumps-single k v =
    ap (λ t. 123 ∷ (t ++ 125 ∷ [])) (member-then k v [] ∙ append-nil (member_text k v))

pub dumps-at :
    (fs : Fields) (as_ : List Text) (m : Text) (bs : List Text)
    → member_texts (sort_fields fs) ≡ as_ ++ m ∷ bs
    → dumps sorted (object fs) ≡ (123 ∷ led as_) ++ (m ++ (trailed bs ++ 125 ∷ []))
unfolding dumps sort_all print
dumps-at fs as_ m bs e =
    let inner : print_fields default_separators false (sort_fields (sort_values fs))
        ≡ led as_ ++ (m ++ trailed bs) =
      ap (print_fields default_separators false) (sym (sort_values-sort fs))
      ∙ print_fields-joined (sort_fields fs)
      ∙ ap joined e
      ∙ joined-split as_ m bs in
    ap (λ t. 123 ∷ (t ++ 125 ∷ [])) inner
    ∙ ap (λ t. 123 ∷ t)
        (append_assoc (led as_) (m ++ trailed bs) (125 ∷ [])
          ∙ ap (◌++◌ (led as_)) (append_assoc m (trailed bs) (125 ∷ [])))
