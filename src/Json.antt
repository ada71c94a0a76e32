-- ===== src/Json.antt =====
-- `json.dumps` as the source calls it: with `ensure_ascii`, with or without sorted keys, and with
-- the default or the compact separators.
pub mod Size
pub mod Members
use airtrace.Prelude.{
  ℕ, zero, suc, ◌+◌, ◌-◌, ◌*◌, ◌/◌, ◌%◌, Bool, true, false, Option, none, some, List, [], ◌∷◌, ◌++◌,
  ◌==◌, ◌&&◌, ltb, leb, if◌then◌else◌,
}
use airtrace.Text.Base.{Text, codes}
use airtrace.Text.Order.{text_eq, text_le}
use airtrace.Text.Number.{show}

-- A value as Python holds it. `int` is a natural number; a negative or fractional number is only
-- ever printed, and is kept as the text that `json.dumps` gives it.
mutual
  pub data Json : Type 0 where
    null : Json
    bool : Bool → Json
    int : ℕ → Json
    number : Text → Json
    string : Text → Json
    array : Items → Json
    object : Fields → Json

  pub data Items : Type 0 where
    nil : Items
    item : Json → Items → Items

  pub data Fields : Type 0 where
    end : Fields
    field : Text → Json → Fields → Fields

unfoldable pub items : List Json → Items
items [] = nil
items (j ∷ js) = item j (items js)

-- `value.get(key)` on a dict, and the key's presence.
unfoldable pub get : Fields → Text → Option Json
get end key = none
get (field k v fs) key = let rest = get fs key in if text_eq k key then some v else rest

-- One hexadecimal digit, in lower case.
hex_digit : ℕ → ℕ
hex_digit d = if ltb d 10 then b'0' + d else b'a' + (d - 10)

-- The escape "\uXXXX" of a code unit.
unicode_escape : ℕ → Text
unfolding hex_digit
unicode_escape c =
    b'\\'
    ∷ b'u'
    ∷ hex_digit (c / 4096 % 16)
    ∷ hex_digit (c / 256 % 16)
    ∷ hex_digit (c / 16 % 16)
    ∷ hex_digit (c % 16)
    ∷ []

-- One character inside a JSON string; above the basic plane, a surrogate pair.
unfoldable pub escape : ℕ → Text
unfolding unicode_escape
escape c =
    if c == b'"'
    then b'\\' ∷ b'"' ∷ []
    else if c == b'\\'
    then b'\\' ∷ b'\\' ∷ []
    else if c == 10
    then b'\\' ∷ b'n' ∷ []
    else if c == 13
    then b'\\' ∷ b'r' ∷ []
    else if c == 9
    then b'\\' ∷ b't' ∷ []
    else if c == 8
    then b'\\' ∷ b'b' ∷ []
    else if c == 12
    then b'\\' ∷ b'f' ∷ []
    else if leb 32 c && leb c 126
    then c ∷ []
    else if ltb c 65536
    then unicode_escape c
    else unicode_escape (55296 + (c - 65536) / 1024 % 1024)
      ++ unicode_escape (56320 + (c - 65536) % 1024)

escape_all : Text → Text
escape_all [] = []
escape_all (c ∷ cs) = escape c ++ escape_all cs

-- `json.dumps(text)`
unfoldable pub quote : Text → Text
unfolding escape_all
quote t = b'"' ∷ (escape_all t ++ b'"' ∷ [])

insert_field : Text → Json → Fields → Fields
insert_field k v end = field k v end
insert_field k v (field j w fs) =
    let later = field j w (insert_field k v fs) in
    if text_le k j then field k v (field j w fs) else later

-- `sort_keys=True`: the keys of a dict are distinct.
unfoldable pub sort_fields : Fields → Fields
unfolding insert_field
sort_fields end = end
sort_fields (field k v fs) = insert_field k v (sort_fields fs)

pub record Separators : Type 0 where
  pub item_separator : Text
  pub key_separator : Text

abbrev pub default_separators : Separators
default_separators = record { item_separator = codes ", "; key_separator = codes ": " }

-- How one call of `json.dumps` prints.
pub record Style : Type 0 where
  pub sort_keys : Bool
  pub separators : Separators

abbrev pub plain : Style
plain = record { sort_keys = false; separators = default_separators }

abbrev pub sorted : Style
sorted = record { sort_keys = true; separators = default_separators }

abbrev pub compact : Style
compact = record {
  sort_keys = true;
  separators = record { item_separator = codes ","; key_separator = codes ":" };
}

-- Every object has its keys in order.
mutual
  pub sort_all : Json → Json
  sort_all (array xs) = array (sort_items xs)
  sort_all (object fs) = object (sort_fields (sort_values fs))
  sort_all j = j

  sort_items : Items → Items
  sort_items nil = nil
  sort_items (item j js) = item (sort_all j) (sort_items js)

  sort_values : Fields → Fields
  sort_values end = end
  sort_values (field k v fs) = field k (sort_all v) (sort_values fs)

unfoldable pub separated : Text → Bool → Text
separated separator true = separator
separated separator false = []

-- `more` says that an item or a field was printed before.
unfoldable mutual
  pub print : Separators → Json → Text
  print s null = codes "null"
  print s (bool true) = codes "true"
  print s (bool false) = codes "false"
  print s (int n) = show n
  print s (number t) = t
  print s (string t) = quote t
  print s (array xs) = b'[' ∷ (print_items s false xs ++ b']' ∷ [])
  print s (object fs) = b'{' ∷ (print_fields s false fs ++ b'}' ∷ [])

  pub print_items : Separators → Bool → Items → Text
  print_items s more nil = []
  print_items s more (item j js) =
      separated s.item_separator more ++ (print s j ++ print_items s true js)

  pub print_fields : Separators → Bool → Fields → Text
  print_fields s more end = []
  print_fields s more (field k v fs) =
      separated s.item_separator more
      ++ (quote k ++ (s.key_separator ++ (print s v ++ print_fields s true fs)))

unfoldable pub dumps : Style → Json → Text
unfolding sort_all
dumps s j = print s.separators (if s.sort_keys then sort_all j else j)
