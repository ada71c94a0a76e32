-- ===== src/Json/Size.antt =====
-- The length of a printed value does not depend on the order of the keys.
use airtrace.Prelude.{
  ℕ, ◌+◌, ◌<◌, ◌≡◌, refl, ◌∙◌, Bool, true, false, [], ◌∷◌, ◌++◌, length, length-append, arith,
  Bool-cases, inl, inr,
}
use airtrace.Text.Base.{Text}
use airtrace.Text.Order.{text_le}
use airtrace.Json.{
  Json, null, bool, int, number, string, array, object, Items, nil, item, Fields, end, field,
  Separators, plain, sorted, default_separators, quote, insert_field, sort_fields, sort_all,
  sort_items, sort_values, separated, print, print_items, print_fields, dumps,
}

-- The length of one field behind another.
field_size : Separators → Text → Json → ℕ
field_size s k v = length (quote k) + length s.key_separator + length (print s v)

rest_size : Separators → Fields → ℕ
rest_size s end = 0
rest_size s (field k v fs) = length s.item_separator + field_size s k v + rest_size s fs

length-print_fields-more :
    (s : Separators) (fs : Fields) → length (print_fields s true fs) ≡ rest_size s fs
unfolding print separated rest_size field_size
length-print_fields-more s end = refl
length-print_fields-more s (field k v fs) = omega (
  arith,
  length-append s.item_separator
      (quote k ++ (s.key_separator ++ (print s v ++ print_fields s true fs))),
  length-append (quote k) (s.key_separator ++ (print s v ++ print_fields s true fs)),
  length-append s.key_separator (print s v ++ print_fields s true fs),
  length-append (print s v) (print_fields s true fs),
  length-print_fields-more s fs,
)

-- The first field has no separator in front.
length-print_fields-first :
    (s : Separators) (k : Text) (v : Json) (fs : Fields)
    → length (print_fields s false (field k v fs)) + length s.item_separator
      ≡ rest_size s (field k v fs)
unfolding print separated rest_size field_size
length-print_fields-first s k v fs = omega (
  arith,
  length-append (quote k) (s.key_separator ++ (print s v ++ print_fields s true fs)),
  length-append s.key_separator (print s v ++ print_fields s true fs),
  length-append (print s v) (print_fields s true fs),
  length-print_fields-more s fs,
)

rest_size-insert_field :
    (s : Separators) (k : Text) (v : Json) (fs : Fields)
    → rest_size s (insert_field k v fs)
      ≡ length s.item_separator + field_size s k v + rest_size s fs
unfolding insert_field rest_size
rest_size-insert_field s k v end = refl
rest_size-insert_field s k v (field j w fs) = elim (Bool-cases (text_le k j)) [
  | inl e ↦ rw e
  | inr e ↦ rw e (omega (arith, rest_size-insert_field s k v fs))
]

rest_size-sort_fields :
    (s : Separators) (fs : Fields) → rest_size s (sort_fields fs) ≡ rest_size s fs
unfolding sort_fields rest_size
rest_size-sort_fields s end = refl
rest_size-sort_fields s (field k v fs) =
    rest_size-insert_field s k v (sort_fields fs) ∙ omega (arith, rest_size-sort_fields s fs)

-- Two field lists of one size are printed in one length.
length-print_fields :
    (s : Separators) (fs gs : Fields)
    → rest_size s fs ≡ rest_size s gs
    → 0 < length s.item_separator
    → length (print_fields s false fs) ≡ length (print_fields s false gs)
unfolding rest_size
length-print_fields s end end e h = refl
length-print_fields s end (field k v gs) e h = absurd (omega arith)
length-print_fields s (field k v fs) end e h = absurd (omega arith)
length-print_fields s (field k v fs) (field j w gs) e h =
    omega (arith, length-print_fields-first s k v fs, length-print_fields-first s j w gs)

mutual
  unfolding sort_all print rest_size field_size separated

  length-print-sort_all :
      (j : Json) (s : Separators)
      → 0 < length s.item_separator
      → length (print s (sort_all j)) ≡ length (print s j)
  length-print-sort_all (array xs) s h = omega (
    arith,
    length-append (print_items s false (sort_items xs)) (b']' ∷ []),
    length-append (print_items s false xs) (b']' ∷ []),
    length-print_items-sort xs s false h,
  )
  length-print-sort_all (object fs) s h = omega (
    arith,
    length-append (print_fields s false (sort_fields (sort_values fs))) (b'}' ∷ []),
    length-append (print_fields s false fs) (b'}' ∷ []),
    length-print_fields s (sort_fields (sort_values fs)) fs
        (rest_size-sort_fields s (sort_values fs) ∙ rest_size-sort_values fs s h) h,
  )
  length-print-sort_all null s h = refl
  length-print-sort_all (bool b) s h = refl
  length-print-sort_all (int n) s h = refl
  length-print-sort_all (number t) s h = refl
  length-print-sort_all (string t) s h = refl

  length-print_items-sort :
      (xs : Items) (s : Separators) (more : Bool)
      → 0 < length s.item_separator
      → length (print_items s more (sort_items xs)) ≡ length (print_items s more xs)
  length-print_items-sort nil s more h = refl
  length-print_items-sort (item j js) s more h = omega (
    arith,
    length-append (separated s.item_separator more)
        (print s (sort_all j) ++ print_items s true (sort_items js)),
    length-append (separated s.item_separator more) (print s j ++ print_items s true js),
    length-append (print s (sort_all j)) (print_items s true (sort_items js)),
    length-append (print s j) (print_items s true js),
    length-print-sort_all j s h,
    length-print_items-sort js s true h,
  )

  rest_size-sort_values :
      (fs : Fields) (s : Separators)
      → 0 < length s.item_separator
      → rest_size s (sort_values fs) ≡ rest_size s fs
  rest_size-sort_values end s h = refl
  rest_size-sort_values (field k v fs) s h =
      omega (arith, length-print-sort_all v s h, rest_size-sort_values fs s h)

-- `json.dumps(value, sort_keys=True)` is as long as `json.dumps(value)`.
pub length-dumps-sorted : (j : Json) → length (dumps sorted j) ≡ length (dumps plain j)
unfolding dumps
length-dumps-sorted j = length-print-sort_all j default_separators (omega arith)
