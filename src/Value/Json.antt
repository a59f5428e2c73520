-- ===== src/Value/Json.antt =====
-- `json.dumps` of a document.
use Prim.Native.Nat.{◌/◌, ◌%◌}
use Prim.Native.Char.{Char, code}
use clavenar_charts.Base.{
  ℕ, ◌+◌, ◌-◌, String, ◌<>◌, Bool, ◌&&◌, ◌||◌, List, [], ◌∷◌, nat_eq, leb, ltb, if◌then◌else◌,
}
use clavenar_charts.Base.Text.{take, drop, join}
use clavenar_charts.Value.{
  Value, null, bool, int, str, array, dict, Items, nil, cons, Fields, end, field,
}
use clavenar_charts.Value.Print.{int_text}
use clavenar_charts.Value.Sort.{text_leb}

-- The separators between items and after a key, and the flags `sort_keys` and `ensure_ascii`.
pub record Style : Type 0 where
  pub item_separator : String
  pub key_separator : String
  pub sort_keys : Bool
  pub ensure_ascii : Bool

hex_digit : ℕ → String
hex_digit n = take 1 (drop n "0123456789abcdef")

-- `\uXXXX`
unicode_escape : ℕ → String
unfolding hex_digit
unicode_escape n =
    "\\u"
    <> hex_digit (n / 4096)
    <> hex_digit ((n / 256) % 16)
    <> hex_digit ((n / 16) % 16)
    <> hex_digit (n % 16)

-- A code point beyond the basic plane is written as two surrogates.
code_escape : ℕ → String
unfolding unicode_escape
code_escape n =
    if ltb n 65536
    then unicode_escape n
    else unicode_escape (55296 + (n - 65536) / 1024) <> unicode_escape (56320 + (n - 65536) % 1024)

escaped : Bool → Char → String
unfolding code_escape
escaped ascii c =
    if nat_eq (code c) 34
    then "\\\""
    else if nat_eq (code c) 92
    then "\\\\"
    else if nat_eq (code c) 10
    then "\\n"
    else if nat_eq (code c) 13
    then "\\r"
    else if nat_eq (code c) 9
    then "\\t"
    else if nat_eq (code c) 8
    then "\\b"
    else if nat_eq (code c) 12
    then "\\f"
    else if ltb (code c) 32 || ascii && leb 127 (code c)
    then code_escape (code c)
    else String.◌∷◌ c ""

escape_all : Bool → String → String
unfolding escaped
escape_all ascii String.[] = ""
escape_all ascii (String.◌∷◌ c s) = escaped ascii c <> escape_all ascii s

unfoldable pub json_string : Bool → String → String
unfolding escape_all
json_string ascii s = "\"" <> escape_all ascii s <> "\""

insert_entry : String × String → List (String × String) → List (String × String)
insert_entry e [] = e ∷ []
insert_entry e (f ∷ fs) =
    let later = insert_entry e fs in if text_leb e.0 f.0 then e ∷ f ∷ fs else f ∷ later

-- The entries in the order of their keys.
sort_entries : List (String × String) → List (String × String)
unfolding insert_entry
sort_entries [] = []
sort_entries (e ∷ es) = insert_entry e (sort_entries es)

-- `"key": value` for each entry of key and written value.
write_entries : Style → List (String × String) → List String
unfolding json_string
write_entries style [] = []
write_entries style ((k, text) ∷ es) =
    (json_string style.ensure_ascii k <> style.key_separator <> text) ∷ write_entries style es

unfoldable mutual
  unfolding json_string int_text sort_entries write_entries

  pub dumps : Style → Value → String
  dumps style null = "null"
  dumps style (bool b) = if b then "true" else "false"
  dumps style (int n) = int_text n
  dumps style (str s) = json_string style.ensure_ascii s
  dumps style (array xs) = "[" <> join style.item_separator (item_texts style xs) <> "]"
  dumps style (dict fs) =
      let entries = entry_texts style fs in
      "{"
      <> join style.item_separator
          (write_entries style (if style.sort_keys then sort_entries entries else entries))
      <> "}"

  item_texts : Style → Items → List String
  item_texts style nil = []
  item_texts style (cons v xs) = dumps style v ∷ item_texts style xs

  entry_texts : Style → Fields → List (String × String)
  entry_texts style end = []
  entry_texts style (field k v fs) = (k, dumps style v) ∷ entry_texts style fs
