-- ===== src/Readiness/Endpoint.antt =====
-- `endpoint_port_path`, and what it uses of `urllib.parse.urlparse`: scheme, port and path of a URL
-- without control characters and without a host in brackets.
use Prim.Native.Char.{code}
use clavenar_charts.Base.{ℕ, ◌+◌, String, ◌<>◌, Bool, true, false, not, ◌&&◌, ◌||◌}
use clavenar_charts.Base.{Option, none, some, nat_eq, leb, ◌==◌, if◌then◌else◌}
use clavenar_charts.Base.Text.{has_prefix, has_infix, partition, drop}
use clavenar_charts.Base.Result.{Result, ok, raise, ◌>>=◌, ◌>>◌, value_error, readiness_error}
use clavenar_charts.Value.{Value}
use clavenar_charts.Value.Access.{as_text}
use clavenar_charts.Value.Number.{digits}

-- `require(condition, message)`
unfoldable pub require : Bool → String → Result (Unit {0})
require condition message = if condition then ok tt else raise (readiness_error message)

abbrev is_stop : ℕ → Bool
is_stop c = nat_eq c 47 || nat_eq c 63 || nat_eq c 35

-- The text before the first character that ends the host, and the text from it on.
abbrev until_stop : String → String × String
until_stop String.[] = ("", "")
until_stop (String.◌∷◌ c s) =
    let (before, after) = until_stop s in
    if is_stop (code c) then ("", String.◌∷◌ c s) else (String.◌∷◌ c before, after)

-- The text before the first `sep`, all of it where there is none.
abbrev before : String → String → String
before text sep = (partition text sep).0

-- The text after the last `@`.
abbrev after_user : String → String
after_user String.[] = ""
after_user (String.◌∷◌ c s) =
    let rest = after_user s in
    if nat_eq (code c) 64 && not (has_infix s "@")
    then s
    else if has_infix s "@"
    then rest
    else String.◌∷◌ c s

abbrev lower : ℕ → ℕ
lower c = if leb 65 c && leb c 90 then c + 32 else c

-- The text starts with `prefix`, which is lower case, whatever its own case.
abbrev has_prefix_any_case : String → String → Bool
has_prefix_any_case s String.[] = true
has_prefix_any_case String.[] (String.◌∷◌ d t) = false
has_prefix_any_case (String.◌∷◌ c s) (String.◌∷◌ d t) =
    nat_eq (lower (code c)) (code d) && has_prefix_any_case s t

-- The path without the parameters of its last segment.
abbrev without_params : String → String
without_params String.[] = ""
without_params (String.◌∷◌ c s) =
    let rest = without_params s in
    if nat_eq (code c) 59 && not (has_infix s "/") then "" else String.◌∷◌ c rest

-- `parsed.port`: `none` without a port.
unfoldable pub port_of : String → Result (Option ℕ)
port_of netloc =
    let digits_text = (partition (after_user netloc) ":").1 in
    if digits_text == "" then ok none else elim (digits 0 digits_text) [
      | none ↦ raise (value_error "Port could not be cast to integer value")
      | some n ↦
          if leb n 65535 then ok (some n) else raise (value_error "Port out of range 0-65535")
    ]

-- The path of what follows the host: without the fragment, the query and the parameters.
unfoldable pub path_of : String → String
path_of rest = without_params (before (before rest "#") "?")

-- The port and the path of an HTTP target.
unfoldable pub endpoint_port_path : Value → Result (ℕ × String)
endpoint_port_path target = do
  url ← as_text target
  require (has_prefix_any_case url "http:") ("contract endpoint must be HTTP: " <> url)
  let rest = drop 5 url
  let (netloc, tail) = until_stop (if has_prefix rest "//" then drop 2 rest else "/" <> rest)
  port ← port_of netloc
  elim port [
    | none ↦ raise (readiness_error ("contract endpoint requires a port: " <> url))
    | some n ↦ ok (n, path_of tail)
  ]
