-- ===== src/Value/Number.antt =====
-- `int(v)` and the order that `sorted` uses on the results.
use Prim.Native.Char.{code}
use clavenar_charts.Base.{
  ℕ, ◌+◌, ◌-◌, ◌*◌, String, ◌<>◌, Bool, true, false, ◌&&◌, Option, none, some, leb, nat_eq,
  if◌then◌else◌,
}
use clavenar_charts.Base.Text.{strip}
use clavenar_charts.Base.Result.{Result, ok, raise, type_error, value_error}
use clavenar_charts.Value.{Value, bool, int, str, ℤ, pos, negsuc}
use clavenar_charts.Value.Equality.{as_int}
use clavenar_charts.Value.Print.{repr}

-- ASCII digits, with the value of those before them.
abbrev pub digits : ℕ → String → Option ℕ
digits n String.[] = some n
digits n (String.◌∷◌ c s) =
    let rest = digits (n * 10 + (code c - 48)) s in
    if leb 48 (code c) && leb (code c) 57 then rest else none

abbrev natural : String → Option ℕ
natural String.[] = none
natural (String.◌∷◌ c s) = digits 0 (String.◌∷◌ c s)

abbrev pub negative : ℕ → ℤ
negative n = if nat_eq n 0 then pos 0 else negsuc (n - 1)

abbrev signed : String → Option ℤ
signed String.[] = none
signed (String.◌∷◌ c s) =
    if nat_eq (code c) 45
    then elim (natural s) [ none ↦ none | some n ↦ some (negative n) ]
    else if nat_eq (code c) 43
    then elim (natural s) [ none ↦ none | some n ↦ some (pos n) ]
    else elim (natural (String.◌∷◌ c s)) [ none ↦ none | some n ↦ some (pos n) ]

-- `int(v)`. A text is decimal digits with a sign and white space around them.
unfoldable pub to_int : Value → Result ℤ
to_int (int n) = ok n
to_int (bool b) = ok (as_int b)
to_int (str s) = elim (signed (strip s)) [
  | none ↦ raise (value_error ("invalid literal for int() with base 10: " <> repr (str s)))
  | some n ↦ ok n
]
to_int _ = raise type_error

-- `s.isdigit()` for ASCII
abbrev pub is_digits : String → Bool
is_digits s = elim (natural s) [ none ↦ false | some _ ↦ true ]

abbrev pub int_leb : ℤ → ℤ → Bool
int_leb (pos a) (pos b) = leb a b
int_leb (negsuc a) (negsuc b) = leb b a
int_leb (negsuc a) (pos b) = true
int_leb (pos a) (negsuc b) = false
