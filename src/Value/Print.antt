-- ===== src/Value/Print.antt =====
-- `str(v)` and `repr(v)`. The escapes are those of printable ASCII and of `\n`, `\r` and `\t`.
use Prim.Native.Nat.{◌/◌, ◌%◌}
use Prim.Native.Char.{code}
use clavenar_charts.Base.{ℕ, zero, suc, ◌+◌, String, ◌<>◌, not, ◌&&◌, nat_eq, ltb, if◌then◌else◌}
use clavenar_charts.Base.Text.{has_infix, drop, take}
use clavenar_charts.Value.{
  Value, null, bool, int, str, array, dict, Items, nil, cons, Fields, end, field, ℤ, pos, negsuc,
}

digit : ℕ → String
digit d = take 1 (drop d "0123456789")

-- With `n` below the fuel every digit is written.
decimal_from : ℕ → ℕ → String → String
decimal_from zero n acc = acc
decimal_from (suc fuel) n acc =
    let more = decimal_from fuel (n / 10) (digit (n % 10) <> acc) in
    if ltb n 10 then digit n <> acc else more

-- `str(n)` of a natural number.
unfoldable pub decimal : ℕ → String
unfolding digit decimal_from
decimal n = decimal_from (suc n) n ""

unfoldable pub int_text : ℤ → String
unfolding decimal
int_text (pos n) = decimal n
int_text (negsuc n) = "-" <> decimal (n + 1)

-- The characters between the quotes, where `quote` is the code of the quote.
escape : ℕ → String → String
escape quote String.[] = ""
escape quote (String.◌∷◌ c s) =
    let rest = escape quote s in
    if nat_eq (code c) 92
    then "\\\\" <> rest
    else if nat_eq (code c) 10
    then "\\n" <> rest
    else if nat_eq (code c) 13
    then "\\r" <> rest
    else if nat_eq (code c) 9
    then "\\t" <> rest
    else if nat_eq (code c) quote
    then "\\" <> (String.◌∷◌ c rest)
    else String.◌∷◌ c rest

quoted : String → String
quoted s =
    if has_infix s "'" && not (has_infix s "\"")
    then "\"" <> escape 34 s <> "\""
    else "'" <> escape 39 s <> "'"

unfoldable mutual
  unfolding quoted escape int_text

  pub repr : Value → String
  repr null = "None"
  repr (bool b) = if b then "True" else "False"
  repr (int n) = int_text n
  repr (str s) = quoted s
  repr (array xs) = "[" <> repr_items xs <> "]"
  repr (dict fs) = "{" <> repr_fields fs <> "}"

  repr_items : Items → String
  repr_items nil = ""
  repr_items (cons v xs) = elim xs [ nil ↦ repr v | cons _ _ ↦ repr v <> ", " <> repr_items xs ]

  repr_fields : Fields → String
  repr_fields end = ""
  repr_fields (field k v fs) = elim fs [
    | end ↦ quoted k <> ": " <> repr v
    | field _ _ _ ↦ quoted k <> ": " <> repr v <> ", " <> repr_fields fs
  ]

-- `str(v)`, as an f-string writes a value.
unfoldable pub text_of : Value → String
unfolding repr
text_of (str s) = s
text_of v = repr v
