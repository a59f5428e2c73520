-- ===== src/Listener/Format.antt =====
-- `str.format` with named texts, for the names of the matrix such as `{release}-ledger`.
use Prim.Native.Char.{code}
use clavenar_charts.Base.{String, ◌<>◌, List, [], ◌∷◌, nat_eq, ◌==◌, if◌then◌else◌}
use clavenar_charts.Base.Result.{Result, ok, raise, ◌>>=◌, key_error, value_error}

-- The value of a replacement field.
unfoldable pub argument : String → List (String × String) → Result String
argument name [] = raise (key_error name)
argument name ((k, v) ∷ rest) = if k == name then ok v else argument name rest

-- Outside a field (`none`), or within one with the name read so far. A doubled brace is a brace:
-- `brace` says that the last character outside was a `}` that waits for its double.
pub data Mode : Type 0 where
  outside opened closing : Mode
  inside : String → Mode

unfoldable pub format_from : Mode → List (String × String) → String → Result String
unfolding argument
format_from outside args String.[] = ok ""
format_from opened args String.[] = raise (value_error "Single '{' encountered in format string")
format_from closing args String.[] = raise (value_error "Single '}' encountered in format string")
format_from (inside name) args String.[] = raise (value_error "expected '}' before end of string")
format_from outside args (String.◌∷◌ c s) =
    let as_open = format_from opened args s in
    let as_close = format_from closing args s in
    let plain = format_from outside args s in
    if nat_eq (code c) 123
    then as_open
    else if nat_eq (code c) 125
    then as_close
    else plain >>= λ rest. ok (String.◌∷◌ c rest)
format_from opened args (String.◌∷◌ c s) =
    let plain = format_from outside args s in
    let named = format_from (inside (String.◌∷◌ c "")) args s in
    if nat_eq (code c) 123
    then (plain >>= λ rest. ok ("{" <> rest))
    else if nat_eq (code c) 125
    then raise (key_error "")
    else named
format_from closing args (String.◌∷◌ c s) =
    let plain = format_from outside args s in
    if nat_eq (code c) 125
    then (plain >>= λ rest. ok ("}" <> rest))
    else raise (value_error "Single '}' encountered in format string")
format_from (inside name) args (String.◌∷◌ c s) =
    let more = format_from (inside (name <> (String.◌∷◌ c ""))) args s in
    let plain = format_from outside args s in
    if nat_eq (code c) 125
    then (argument name args >>= λ v. (plain >>= λ rest. ok (v <> rest)))
    else more

-- `template.format(**args)`
unfoldable pub format : String → List (String × String) → Result String
unfolding format_from
format template args = format_from outside args template
